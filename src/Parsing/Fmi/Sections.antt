-- ===== src/Parsing/Fmi/Sections.antt =====
-- A file of three counts, the nodes' lines and the edges' lines is parsed line by line.
use osmgraphing.Prelude.{ℕ, ◌+◌, ◌≡◌, ◌≤◌, refl, ◌∙◌, false, List, [], ◌∷◌, ◌++◌, length, arith}
use osmgraphing.Rust.Outcome.{ok}
use osmgraphing.Rust.Numerals.{display_usize, max_usize}
use osmgraphing.Rust.Float.{FloatText}
use osmgraphing.Network.Geo.{Geo}
use osmgraphing.Network.Street.Text.{Text}
use osmgraphing.Building.Protos.{EdgeBuilder, NodeBuilder}
use osmgraphing.Building.Nodes.{new_builder, next_nodes, next_graph}
use osmgraphing.Parsing.Config.{Config, graph_config, check_config}
use osmgraphing.Parsing.Lines.{functional_lines, preprocess, count_lines, ranges}
use osmgraphing.Parsing.Lines.Counts.{HasColumns, ranges-count_lines}
use osmgraphing.Parsing.Fmi.{
  each_line, insert_edge_line, insert_node_line, parse_ways, parse_nodes, parse,
}
use osmgraphing.Parsing.Fmi.Loops.{each, each_line-each, each_line-last}
use osmgraphing.Parsing.Fmi.EdgeLines.{edge_lines}

module _ {F C : Type 0} ⦃t : FloatText F⦄ ⦃geo : Geo F C⦄ where
  -- The two loops on the functional lines of a file: three counts, the nodes' and the edges' lines.
  pub parse-sections :
      (capacity : ℕ) (cfg : Config F) (lines : List Text) (dim : ℕ)
      (node_lines edge_lines : List Text) (edges : EdgeBuilder F) (b : NodeBuilder F C)
      → check_config capacity cfg ≡ ok tt
      → functional_lines lines
        ≡ display_usize dim
            ∷ display_usize (length node_lines)
            ∷ display_usize (length edge_lines)
            ∷ node_lines
          ++ edge_lines
      → dim ≤ max_usize
      → 3 + length node_lines + length edge_lines ≤ max_usize
      → HasColumns (node_lines ++ edge_lines)
      → each (insert_edge_line cfg.edges.categories) edge_lines (new_builder (graph_config cfg))
        ≡ ok edges
      → each (insert_node_line cfg.nodes) node_lines (next_nodes edges) ≡ ok b
      → parse capacity cfg lines ≡ ok (next_graph b)
  unfolding parse preprocess parse_ways parse_nodes
  parse-sections capacity cfg lines dim node_lines edge_lines edges b checked sections dim_fits fits
        columns edges_inserted nodes_inserted =
      let n = length node_lines in
      let m = length edge_lines in
      let counts = display_usize dim ∷ display_usize n ∷ display_usize m ∷ [] in
      let ways : each_line (insert_edge_line cfg.edges.categories)
            (record { first = 3 + n; last = 3 + n + m }) 0 (functional_lines lines)
            (new_builder (graph_config cfg))
          ≡ ok edges =
        rw sections (
          each_line-last (insert_edge_line cfg.edges.categories)
            (record { first = 3 + n; last = 3 + n + m }) (counts ++ node_lines) edge_lines
            (new_builder (graph_config cfg)) (omega arith) (omega arith)
          ∙ edges_inserted) in
      let points : each_line (insert_node_line cfg.nodes) (record { first = 3; last = 3 + n }) 0
            (functional_lines lines) (next_nodes edges)
          ≡ ok b =
        rw sections (
          each_line-each (insert_node_line cfg.nodes) (record { first = 3; last = 3 + n }) counts
            node_lines edge_lines (next_nodes edges) (omega arith) (omega arith)
          ∙ nodes_inserted) in
      let found : ranges (count_lines (functional_lines lines) 0 false [])
          ≡ ok (record {
            node_lines = record { first = 3; last = 3 + n };
            edge_lines = record { first = 3 + n; last = 3 + n + m };
          }) =
        rw sections (ranges-count_lines dim n m (node_lines ++ edge_lines) dim_fits fits columns) in
      rw checked (rw found (rw ways (rw points refl)))
