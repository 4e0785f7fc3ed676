-- ===== src/Parsing/Fmi.antt =====
-- io/parsing/network/graph/fmi.rs, `parse_ways` and `parse_nodes`, and `Parsing::parse` of
-- io/parsing/network/graph/mod.rs.
pub mod Loops
pub mod NodeLines
pub mod EdgeLines
pub mod Finalized
pub mod Sections
pub mod Printed
pub mod RoundTrip
use osmgraphing.Prelude.{ℕ, ◌+◌, List, [], ◌∷◌, if◌then◌else◌}
use osmgraphing.Rust.Outcome.{Outcome, ok, ◌>>=◌}
use osmgraphing.Rust.Float.{FloatText}
use osmgraphing.Network.Geo.{Geo}
use osmgraphing.Network.Street.Text.{Text}
use osmgraphing.Configs.Nodes
use osmgraphing.Configs.Edges
use osmgraphing.Building.Protos.{EdgeBuilder, NodeBuilder, GraphBuilder}
use osmgraphing.Building.Nodes.{new_builder, insert_edge, insert_node, next_nodes, next_graph}
use osmgraphing.Parsing.Config.{Config, graph_config}
use osmgraphing.Parsing.Lines.{Range, in_range, functional_lines, preprocess}
use osmgraphing.Parsing.EdgeLine.{try_from_str}
use osmgraphing.Parsing.NodeLine.{from_str}

-- The loops of both methods: `step` for each functional line whose number is in the range.
module _ {S : Type 0} (step : Text → S → Outcome S) (r : Range) where
  unfoldable pub each_line : ℕ → List Text → S → Outcome S
  each_line line_number [] s = ok s
  each_line line_number (line ∷ lines) s =
      let skipped = each_line (line_number + 1) lines s in
      if in_range r line_number
      then (step line s >>= λ s'. each_line (line_number + 1) lines s')
      else skipped

module _ {F : Type 0} ⦃t : FloatText F⦄ where
  unfoldable pub insert_edge_line :
      List Edges.Category → Text → EdgeBuilder F → Outcome (EdgeBuilder F)
  unfolding try_from_str
  insert_edge_line categories line builder =
      try_from_str line categories >>= λ proto_edge. ok (insert_edge builder proto_edge)

  unfoldable pub parse_ways :
      Range → List Edges.Category → List Text → EdgeBuilder F → Outcome (EdgeBuilder F)
  unfolding each_line insert_edge_line functional_lines
  parse_ways edge_lines categories lines builder =
      each_line (insert_edge_line categories) edge_lines 0 (functional_lines lines) builder

module _ {F C : Type 0} ⦃t : FloatText F⦄ ⦃geo : Geo F C⦄ where
  -- Whether the node belongs to an edge is not looked at.
  unfoldable pub insert_node_line :
      Nodes.Config → Text → NodeBuilder F C → Outcome (NodeBuilder F C)
  unfolding from_str
  insert_node_line cfg line builder = from_str F line cfg >>= λ proto_node.
      insert_node builder proto_node >>= λ inserted. ok inserted.0

  unfoldable pub parse_nodes :
      Range → Nodes.Config → List Text → NodeBuilder F C → Outcome (NodeBuilder F C)
  unfolding each_line insert_node_line functional_lines
  parse_nodes node_lines cfg lines builder =
      each_line (insert_node_line cfg) node_lines 0 (functional_lines lines) builder

  -- `Parsing::parse`
  unfoldable pub parse : ℕ → Config F → List Text → Outcome (GraphBuilder F C)
  unfolding preprocess parse_ways parse_nodes
  parse capacity cfg lines = preprocess capacity cfg lines >>= λ parser.
      parse_ways parser.edge_lines cfg.edges.categories lines (new_builder (graph_config cfg))
      >>= λ edges. parse_nodes parser.node_lines cfg.nodes lines (next_nodes edges) >>= λ nodes.
          ok (next_graph nodes)
