-- ===== src/Tests/Fmi.antt =====
-- The small graph is written and parsed, and what is parsed is finalized.
use osmgraphing.Prelude.{
  ℕ, ◌≡◌, ◌≢◌, refl, sym, ap, ◌∙◌, some, inr, true, List, [], ◌∷◌, map, ◌↔◌, arith,
}
use osmgraphing.Rust.Outcome.{ok, ok_inj, panic, Returns}
use osmgraphing.Rust.Words.{split_whitespace}
use osmgraphing.Network.Graph
use osmgraphing.Network.Graph.{Graph, Node}
use osmgraphing.Network.Street.Text.{Text, codes}
use osmgraphing.Configs.Edges
use osmgraphing.Building.Protos.{EdgeBuilder, NodeBuilder, GraphBuilder}
use osmgraphing.Configs.GeneratedEdges
use osmgraphing.Configs.Generating
use osmgraphing.Parsing.Config.{Config, check_config}
use osmgraphing.Parsing.NodeLine.{from_str}
use osmgraphing.Parsing.NodeLine.RoundTrip.{kept as kept_node, from_str-write_node_line}
use osmgraphing.Writing.NodeLine.{write_node_line}
use osmgraphing.Writing.NodeLine.Columns.{column_of}
use osmgraphing.Writing.EdgeLine.{edge_info, write_edge_line}
use osmgraphing.Writing.EdgeLine.Ends.{edge_info-dst_lat}
use osmgraphing.Parsing.EdgeLine.{try_from_str}
use osmgraphing.Parsing.EdgeLine.Panics.{try_from_str-short_id}
use osmgraphing.Parsing.Lines.{is_line_functional}
use osmgraphing.Parsing.Config.{graph_config}
use osmgraphing.Parsing.Config.Cases.{IsComplete, check_config_iff}
use osmgraphing.Parsing.Fmi.{parse}
use osmgraphing.Building.Nodes.{
  new_builder, next_nodes, next_graph, insert_edge, insert_node, insert_ids, write_node,
}
use osmgraphing.Building.Finalize.{finalize}
use osmgraphing.Rust.Search.{binary_search}
use osmgraphing.Rust.Sort.{sort_by, insert_by, dedup_by, kept}
use osmgraphing.Parsing.Fmi.Finalized.{parse-finalize}
use osmgraphing.Building.Nodes.Insertions.{insert_nodes, with_places}
use osmgraphing.Parsing.EdgeLine.Written.{try_from_str-write_edge_line}
use osmgraphing.Parsing.EdgeLine.Held.{kept as kept_edge}
use osmgraphing.Parsing.Fmi.EdgeLines.{insert_edges}
use osmgraphing.Parsing.Fmi.RoundTrip.{parse-write}
use osmgraphing.Writing.Fmi.{write}
use osmgraphing.Tests.Numbers.{numbers}
use osmgraphing.Tests.SmallGraph.{
  strokes, pairs, sizes, cfg, writing_cfg, graph, node_0, node_1, edge_0, edge_1,
  strokes-RoundTrips, nodes-made, all-made, nodes-Fit, describes_nodes, describes_edges,
  edge_1-IsStored, all-IsStored, IsRoundTrip-graph,
}

abbrev edges_inserted : EdgeBuilder ℕ
edges_inserted =
    insert_edges (new_builder (graph_config cfg))
      (map (kept_edge cfg.edges.categories) (edge_0 ∷ edge_1 ∷ []))

abbrev inserted : NodeBuilder ℕ (ℕ × ℕ)
inserted = with_places (next_nodes edges_inserted) (some (3, 4) ∷ some (1, 2) ∷ []) (0 ∷ 12 ∷ [])

inserted_all :
    insert_nodes
      (next_nodes edges_inserted)
      (map (kept_node cfg.nodes.categories) (node_0 ∷ node_1 ∷ []))
    ≡ ok inserted
unfolding next_nodes new_builder insert_edge insert_node sort_by insert_by dedup_by kept
    binary_search insert_ids write_node
inserted_all = refl

abbrev parsed : GraphBuilder ℕ (ℕ × ℕ)
parsed = next_graph inserted

-- The graph's file.
file : (lines : List Text) × (parse ⦃t = strokes⦄ ⦃geo = pairs⦄ 1 cfg lines ≡ ok parsed)
file =
    let (lines, b, written, inserted_b, same) =
      parse-write ⦃f = numbers⦄ ⦃t = strokes⦄ ⦃geo = pairs⦄ (λ texts. []) strokes-RoundTrips
        (λ c. refl) 1 cfg writing_cfg graph IsRoundTrip-graph node_0 (node_1 ∷ []) all-made
        nodes-Fit (edge_0 ∷ edge_1 ∷ []) all-IsStored in
    (lines, same ∙ ap (λ b. ok (next_graph b)) (ok_inj (sym inserted_b ∙ inserted_all)))

no_shortcuts : parsed.proto_shortcuts ≡ []
unfolding next_graph next_nodes new_builder insert_edge
no_shortcuts = refl

parse-finalize_example : Returns (finalize ⦃f = numbers⦄ sizes parsed)
parse-finalize_example =
    parse-finalize ⦃f = numbers⦄ ⦃t = strokes⦄ ⦃geo = pairs⦄ sizes 1 cfg file.0 parsed (omega arith)
      (omega arith) refl file.1 (rw no_shortcuts tt)

parse-write_example :
    (lines : List Text) × (b : NodeBuilder ℕ (ℕ × ℕ)) × (write
        (λ texts. [])
        ⦃f = numbers⦄
        ⦃t = strokes⦄
        ⦃geo = pairs⦄
        cfg
        writing_cfg
        graph
      ≡ ok lines)
    × (insert_nodes
          (next_nodes edges_inserted)
          (map (kept_node cfg.nodes.categories) (node_0 ∷ node_1 ∷ []))
        ≡ ok b)
    × (parse ⦃t = strokes⦄ ⦃geo = pairs⦄ 1 cfg lines ≡ ok (next_graph b))
parse-write_example =
    parse-write ⦃f = numbers⦄ ⦃t = strokes⦄ ⦃geo = pairs⦄ (λ texts. []) strokes-RoundTrips
      (λ c. refl) 1 cfg writing_cfg graph IsRoundTrip-graph node_0 (node_1 ∷ []) all-made nodes-Fit
      (edge_0 ∷ edge_1 ∷ []) all-IsStored

try_from_str-write_edge_line_example :
    (line : Text) × (write_edge_line ⦃f = numbers⦄ ⦃t = strokes⦄ ⦃geo = pairs⦄ cfg.edges
        writing_cfg.edges graph 1
      ≡ ok line)
    × (is_line_functional line ≡ true)
    × (try_from_str ⦃t = strokes⦄ line cfg.edges.categories
        ≡ ok (kept_edge cfg.edges.categories edge_1))
try_from_str-write_edge_line_example =
    try_from_str-write_edge_line ⦃f = numbers⦄ ⦃t = strokes⦄ ⦃geo = pairs⦄ strokes-RoundTrips graph
      1 edge_1 edge_1-IsStored.holds edge_1-IsStored.fits cfg.edges describes_edges
      edge_1-IsStored.parsed refl writing_cfg.edges refl refl

from_str-write_node_line_example :
    (line : Text) × (write_node_line ℕ ⦃t = strokes⦄ ⦃geo = pairs⦄ cfg.nodes.categories
        (map column_of cfg.nodes.categories)
        (Graph.nodes graph)
        1
      ≡ ok line)
    × (from_str ℕ ⦃t = strokes⦄ ⦃geo = pairs⦄ line cfg.nodes
        ≡ ok (kept_node cfg.nodes.categories node_1))
from_str-write_node_line_example =
    from_str-write_node_line ℕ ⦃t = strokes⦄ ⦃geo = pairs⦄ node_1 strokes-RoundTrips nodes-Fit.1.0
      (λ c. refl) (Graph.nodes graph) 1 nodes-made.1 cfg.nodes.categories describes_nodes.distinct
      describes_nodes.supported describes_nodes.has_id describes_nodes.has_latitude
      describes_nodes.has_longitude

-- The line of an edge whose id is `x`.
try_from_str-short_id_example :
    try_from_str {F = ℕ} ⦃t = strokes⦄
      (codes "x 3 4")
      (Edges.Category.meta Edges.MetaInfo.edge_id (codes "id") ∷ [])
    ≡ panic
unfolding split_whitespace
try_from_str-short_id_example =
    try_from_str-short_id ⦃t = strokes⦄ (codes "x 3 4") b'x' (codes "3" ∷ codes "4" ∷ [])
      (codes "id") [] refl (omega arith) (inr (omega arith))

edge_info-dst_lat_example :
    (edge_info ⦃f = numbers⦄ ⦃t = strokes⦄ ⦃geo = pairs⦄ graph 0 Edges.MetaInfo.dst_lat
      ≡ ok (codes "1111"))
    × (edge_info ⦃f = numbers⦄ ⦃t = strokes⦄ ⦃geo = pairs⦄ graph 0 Edges.MetaInfo.dst_lat
        ≢ ok (codes "11"))
unfolding Graph.fwd_edges Graph.bwd_edges Graph.nodes Graph.node_coord Graph.dst_idx
edge_info-dst_lat_example =
    edge_info-dst_lat ⦃f = numbers⦄ ⦃t = strokes⦄ ⦃geo = pairs⦄ graph 0 0 1 (3, 4) (1, 2) refl refl
      refl refl (λ h. cc)

-- The configuration, and a metric that is generated.
abbrev generating_cfg : Config ℕ
generating_cfg = record cfg {
  generating =
      some (GeneratedEdges.Category.haversine Generating.UnitInfo.meters (codes "air") ∷ []);
}

check_config_iff_example : (check_config 2 generating_cfg ≡ ok tt) ↔ IsComplete 2 generating_cfg
check_config_iff_example = check_config_iff 2 generating_cfg
