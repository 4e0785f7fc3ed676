-- ===== src/Writing/Fmi.antt =====
-- io/writing/network/graph/fmi.rs, `Writer::write`.
use osmgraphing.Prelude.{
  ℕ, ◌+◌, Option, none, some, Bool, false, not, List, [], ◌∷◌, ◌++◌, ◌||◌, map, if◌then◌else◌,
}
use osmgraphing.Rust.Outcome.{Outcome, ok, ◌>>=◌}
use osmgraphing.Rust.Numerals.{display_usize}
use osmgraphing.Rust.Float.{Float64, FloatText}
use osmgraphing.Rust.Vec.{range}
use osmgraphing.Network.Geo.{Geo}
use osmgraphing.Network.Graph.{
  EdgeIdx, EdgeAccessor, Graph, nodes, node_count, fwd_edges, edge_count, is_shortcut,
}
use osmgraphing.Network.Street.Text.{Text, codes, text_eq}
use osmgraphing.Configs.Metrics.{SimpleId}
use osmgraphing.Parsing.Config.{Config}
use osmgraphing.Writing.Config.{GraphConfig, edges_of_graph}
use osmgraphing.Writing.Row.{ignore_str}
use osmgraphing.Writing.NodeLine.{write_nodes}
use osmgraphing.Writing.EdgeLine.{write_edges_to_file}

abbrev pub shown_id : Option SimpleId → Text
shown_id none = ignore_str
shown_id (some id) = id

-- `ids.contains(id)`
unfoldable pub contains_id : List SimpleId → SimpleId → Bool
unfolding text_eq
contains_id [] id = false
contains_id (x ∷ ids) id = text_eq x id || contains_id ids id

-- The written metrics of the graph.
unfoldable pub written_dim : List SimpleId → List (Option SimpleId) → ℕ
unfolding contains_id
written_dim metric_ids [] = 0
written_dim metric_ids (none ∷ ids) = written_dim metric_ids ids
written_dim metric_ids (some id ∷ ids) =
    (if contains_id metric_ids id then 1 else 0) + written_dim metric_ids ids

-- The edges that are no shortcuts, or all.
unfoldable pub written_edges : {F : Type 0} → EdgeAccessor F → Bool → List EdgeIdx → Outcome ℕ
unfolding is_shortcut
written_edges fwd is_writing_shortcuts [] = ok 0
written_edges fwd is_writing_shortcuts (edge_idx ∷ edges) = is_shortcut fwd edge_idx >>= λ shortcut.
    written_edges fwd is_writing_shortcuts edges >>= λ count.
    ok ((if not shortcut || is_writing_shortcuts then 1 else 0) + count)

-- `{:?}` of a vector of texts is the parameter `debug`.
module _ (debug : List Text → Text) where
  unfoldable pub header : Bool → GraphConfig → List Text
  header are_normalized writing_cfg =
      codes "# edge-metric-count"
      ∷ codes "# node-count"
      ∷ codes "# edge-count"
      ∷ (codes "# nodes: " ++ debug (map shown_id writing_cfg.nodes.ids))
      ∷ (codes "# edges: " ++ debug (map shown_id writing_cfg.edges.ids))
      ∷ (codes "# Edges' metrics are "
          ++ (if not are_normalized || writing_cfg.edges.is_denormalizing
              then codes "not normalized"
              else codes "normalized")
          ++ codes " by their mean.")
      ∷ []
      ∷ []

  module _ {F C : Type 0} ⦃f : Float64 F⦄ ⦃t : FloatText F⦄ ⦃geo : Geo F C⦄ where
    unfoldable pub write : Config F → GraphConfig → Graph F C → Outcome (List Text)
    unfolding header written_dim written_edges write_nodes write_edges_to_file edge_count node_count
    write cfg writing_cfg graph =
        let fwd = fwd_edges graph in
        let dim = written_dim cfg.edges.metrics.ids writing_cfg.edges.ids in
        written_edges fwd writing_cfg.edges.is_writing_shortcuts (range 0 (edge_count fwd))
        >>= λ count.
            write_nodes F cfg.nodes.categories writing_cfg.nodes.ids (nodes graph) >>= λ node_lines.
            write_edges_to_file cfg.edges (edges_of_graph writing_cfg) graph >>= λ edge_lines. ok (
              header cfg.edges.metrics.are_normalized writing_cfg
              ++ (display_usize dim
                    ∷ display_usize (node_count (nodes graph))
                    ∷ display_usize count
                    ∷ node_lines
                  ++ edge_lines))
