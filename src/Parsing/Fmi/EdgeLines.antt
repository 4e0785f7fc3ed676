-- ===== src/Parsing/Fmi/EdgeLines.antt =====
-- The lines of all edges: they are written, and parsing them inserts the edges in their order.
use osmgraphing.Prelude.{
  suc, if◌then◌else◌, ◌≡◌, refl, ap, true, false, Bool, List, [], ◌∷◌, map, length, All, AllPairs,
}
use osmgraphing.Rust.Outcome.{ok}
use osmgraphing.Rust.Float.{Float64, FloatText, RoundTrips}
use osmgraphing.Network.Geo.{Geo}
use osmgraphing.Network.Graph.{EdgeIdx, Graph}
use osmgraphing.Network.Street.Text.{Text}
use osmgraphing.Configs.Edges
use osmgraphing.Building.Protos.{ProtoShortcut, EdgeBuilder}
use osmgraphing.Building.Nodes.{insert_edge}
use osmgraphing.Parsing.Lines.Counts.{IsFunctional}
use osmgraphing.Parsing.EdgeLine.Columns.{CanBeParsed}
use osmgraphing.Parsing.EdgeLine.Held.{HoldsEdge, ShortcutFits, kept}
use osmgraphing.Parsing.EdgeLine.Written.{DescribesEdges, try_from_str-write_edge_line}
use osmgraphing.Parsing.Fmi.{insert_edge_line}
use osmgraphing.Parsing.Fmi.Loops.{each}
use osmgraphing.Writing.Config.{EdgesConfig}
use osmgraphing.Writing.EdgeLine.{write_edges_from}
use osmgraphing.Writing.EdgeLine.Columns.{column_of}

-- The edges are inserted one after the other.
abbrev pub insert_edges : {F : Type 0} → EdgeBuilder F → List (ProtoShortcut F) → EdgeBuilder F
insert_edges b [] = b
insert_edges b (p ∷ ps) = insert_edges (insert_edge b p) ps

if_true : {A : Type 0} {b : Bool} {x z : A} (y : A) → b ≡ true → x ≡ z → (if b then x else y) ≡ z
if_true y e h = rw e h

-- The graph's edge, which can be written and parsed.
pub record IsStored {F C : Type 0} (graph : Graph F C) (cfg : Edges.Config) (edge_idx : EdgeIdx)
    (edge : ProtoShortcut F) : Type 0 where
  pub holds : HoldsEdge graph edge_idx edge
  pub fits : ShortcutFits edge
  pub parsed : All (CanBeParsed edge.proto_edge.id) cfg.categories
  pub in_step : length edge.proto_edge.metrics ≡ length cfg.metrics.ids

module _ {F C : Type 0} ⦃f : Float64 F⦄ ⦃t : FloatText F⦄ ⦃geo : Geo F C⦄ (graph : Graph F C)
    (cfg : Edges.Config) (writing_cfg : EdgesConfig) where
  -- The lines of the edges, and what they are parsed as.
  pub record Lines (edges : List EdgeIdx) (protos : List (ProtoShortcut F)) : Type 0 where
    pub lines : List Text
    pub written : write_edges_from cfg writing_cfg graph edges ≡ ok lines
    pub inserted :
        (b : EdgeBuilder F)
        → each (insert_edge_line cfg.categories) lines b
          ≡ ok (insert_edges b (map (kept cfg.categories) protos))
    pub functional : All IsFunctional lines
    pub as_many : length lines ≡ length edges

  module _ (texts : RoundTrips t) (describes : DescribesEdges cfg)
      (columns : writing_cfg.ids ≡ map column_of cfg.categories)
      (plain : writing_cfg.is_denormalizing ≡ false)
      (all : writing_cfg.is_writing_shortcuts ≡ true) where
    pub edge_lines :
        (edges : List EdgeIdx) (protos : List (ProtoShortcut F))
        → AllPairs (IsStored graph cfg) edges protos
        → Lines edges protos
    unfolding write_edges_from insert_edge_line
    edge_lines [] [] h = record {
      lines = [];
      written = refl;
      inserted = λ b. refl;
      functional = tt;
      as_many = refl;
    }
    edge_lines [] (p ∷ ps) h = absurd h
    edge_lines (e ∷ es) [] h = absurd h
    edge_lines (e ∷ es) (p ∷ ps) h =
        let rest = edge_lines es ps h.1 in
        let s = h.0 in
        let (line, written, functional, parsed) =
          try_from_str-write_edge_line texts graph e p s.holds s.fits cfg describes s.parsed
            s.in_step writing_cfg columns plain in
        record {
          lines = line ∷ rest.lines;
          written = if_true _ all (rw written (rw rest.written refl));
          inserted = λ b. rw parsed (rest.inserted (insert_edge b (kept cfg.categories p)));
          functional = (functional, rest.functional);
          as_many = ap suc rest.as_many;
        }
