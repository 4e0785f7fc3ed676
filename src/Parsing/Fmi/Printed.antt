-- ===== src/Parsing/Fmi/Printed.antt =====
-- What the writer prints: its header, its counts and the nodes' lines.
use osmgraphing.Prelude.{
  ℕ, suc, ◌+◌, ◌-◌, ◌≡◌, refl, ap, true, false, Bool, Option, none, some, List, [], ◌∷◌, ◌++◌, map,
  length, All, AllPairs, arith, if◌then◌else◌, not, ◌||◌,
}
use osmgraphing.Rust.Outcome.{ok, ◌>>=◌, returned}
use osmgraphing.Rust.Vec.{index, range, length-count_from}
use osmgraphing.Rust.Numerals.{display_usize}
use osmgraphing.Rust.Numerals.RoundTrip.{display_usize-IsPlain}
use osmgraphing.Rust.Float.{Float64, FloatText}
use osmgraphing.Network.Geo.{Geo}
use osmgraphing.Network.Graph.{
  EdgeIdx, Node, NodeAccessor, Graph, EdgeAccessor, node_count, create, fwd_edges, is_shortcut,
  sc_edges_at,
}
use osmgraphing.Network.Street.Text.{Text}
use osmgraphing.Configs.Nodes
use osmgraphing.Configs.Metrics.{SimpleId}
use osmgraphing.Configs.Edges.Ids.{AreDistinct}
use osmgraphing.Writing.Row.Lookup.{ids_by}
use osmgraphing.Configs.Edges
use osmgraphing.Building.Protos.{ProtoShortcut}
use osmgraphing.Parsing.Lines.{functional_lines}
use osmgraphing.Parsing.Lines.Counts.{IsFunctional, IsFunctional-join}
use osmgraphing.Parsing.Fmi.NodeLines.{node_line, collect-node_lines}
use osmgraphing.Parsing.Fmi.EdgeLines.{IsStored}
use osmgraphing.Writing.Config.{GraphConfig}
use osmgraphing.Writing.NodeLine.{write_nodes}
use osmgraphing.Writing.NodeLine.Columns.{column_of as node_column_of, IsSupported}
use osmgraphing.Writing.Fmi.{header, written_edges}

pub length-range : (n : ℕ) → length (range 0 n) ≡ n
length-range n = omega (arith, length-count_from 0 (n - 0))

pub AllPairs-length :
    {A B : Type 0} (R : A → B → Type 0) (xs : List A) (ys : List B)
    → AllPairs R xs ys
    → length xs ≡ length ys
AllPairs-length R [] [] h = refl
AllPairs-length R [] (y ∷ ys) h = absurd h
AllPairs-length R (x ∷ xs) [] h = absurd h
AllPairs-length R (x ∷ xs) (y ∷ ys) h = ap suc (AllPairs-length R xs ys h.1)

pub functional_lines-header :
    (debug : List Text → Text) (are_normalized : Bool) (writing_cfg : GraphConfig)
    (lines : List Text)
    → functional_lines (header debug are_normalized writing_cfg ++ lines) ≡ functional_lines lines
unfolding functional_lines header
functional_lines-header debug are_normalized writing_cfg lines = refl

pub count-IsFunctional : (n : ℕ) → IsFunctional (display_usize n)
count-IsFunctional n = IsFunctional-join (display_usize n) [] (display_usize-IsPlain n)

is_shortcut-total :
    {F : Type 0} (a : EdgeAccessor F) (idx : EdgeIdx) (sc_edges : Option (EdgeIdx × EdgeIdx))
    → sc_edges_at a idx ≡ ok sc_edges
    → (shortcut : Bool) × (is_shortcut a idx ≡ ok shortcut)
unfolding sc_edges_at
is_shortcut-total a idx sc_edges h =
    let (shortcut, later, e) =
      returned sc_edges (is_shortcut a idx)
        (λ shortcut.
          if shortcut
          then (index a.sc_offsets idx >>= λ k. index a.sc_edges k >>= λ e. ok (some e))
          else ok none)
        h in
    (shortcut, e)

counted : (shortcut : Bool) (n : ℕ) → (if not shortcut || true then 1 else 0) + n ≡ suc n
counted true n = omega arith
counted false n = omega arith

module _ (F : Type 0) {C : Type 0} ⦃t : FloatText F⦄ ⦃geo : Geo F C⦄ where
  pub write_nodes-lines :
      (cs : List Nodes.Category) (a : NodeAccessor C) (ns : List (Node C))
      (ids : List (Option SimpleId))
      → ids ≡ map node_column_of cs
      → AreDistinct (ids_by node_column_of cs)
      → All IsSupported cs
      → AllPairs (λ idx node. create a idx ≡ ok node) (range 0 (node_count a)) ns
      → write_nodes F cs ids a ≡ ok (map (node_line F cs) ns)
  unfolding write_nodes
  write_nodes-lines cs a ns ids e distinct supported made =
      rw e (collect-node_lines F cs distinct supported a (range 0 (node_count a)) ns made)

module _ {F C : Type 0} ⦃f : Float64 F⦄ ⦃t : FloatText F⦄ ⦃geo : Geo F C⦄ where
  -- All edges are counted, shortcuts or not.
  written_edges-all :
      (graph : Graph F C) (cfg : Edges.Config) (edges : List EdgeIdx)
      (protos : List (ProtoShortcut F))
      → AllPairs (IsStored graph cfg) edges protos
      → written_edges (fwd_edges graph) true edges ≡ ok (length edges)
  unfolding written_edges
  written_edges-all graph cfg [] protos h = refl
  written_edges-all graph cfg (e ∷ es) [] h = absurd h
  written_edges-all graph cfg (e ∷ es) (p ∷ ps) h =
      let s = h.0 in
      let (shortcut, q) = is_shortcut-total (fwd_edges graph) e p.sc_edges s.holds.holds_sc_edges in
      rw q (rw (written_edges-all graph cfg es ps h.1) (ap ok (counted shortcut (length es))))

  pub written_edges-flag :
      (graph : Graph F C) (cfg : Edges.Config) (flag : Bool) (edges : List EdgeIdx)
      (protos : List (ProtoShortcut F))
      → flag ≡ true
      → AllPairs (IsStored graph cfg) edges protos
      → written_edges (fwd_edges graph) flag edges ≡ ok (length edges)
  written_edges-flag graph cfg flag edges protos e h =
      rw e (written_edges-all graph cfg edges protos h)
