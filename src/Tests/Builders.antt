-- ===== src/Tests/Builders.antt =====
-- A builder with one edge from node 7 to node 3.
use osmgraphing.Prelude.{ℕ, ◌≡◌, refl, ◌↔◌, ◌⊎◌, none, some, [], ◌∷◌, In, get_elem?, true, false}
use osmgraphing.Prelude.Int.{pos, compare_ℤ}
use osmgraphing.Rust.Outcome.{ok, err, no_coordinates}
use osmgraphing.Rust.Search.{binary_search, at}
use osmgraphing.Network.Graph.{Config}
use osmgraphing.Building.Protos.{ProtoNode, ProtoShortcut, EdgeBuilder, NodeBuilder}
use osmgraphing.Building.Nodes.{
  new_builder, insert_edge, next_nodes, insert_node, check_coordinates,
}
use osmgraphing.Building.Nodes.Edges.{
  IsBuilt, EndsAt, new_builder-IsBuilt, insert_edge-IsBuilt, next_nodes_search,
}
use osmgraphing.Building.Nodes.Coordinates.{Written, insert_node_lem, check_coordinates_err}

abbrev cfg : Config
cfg = record { dim = 1; are_normalized = false }

abbrev edge : ProtoShortcut ℕ
edge = record {
  proto_edge = record { id = none; src_id = pos 7; dst_id = pos 3; metrics = 5 ∷ [] };
  sc_edges = some (0, 1);
}

insert_edge_example : IsBuilt (insert_edge (new_builder {F = ℕ} cfg) edge)
insert_edge_example = insert_edge-IsBuilt (new_builder cfg) edge (new_builder-IsBuilt cfg)

abbrev builder : EdgeBuilder ℕ
builder = insert_edge (new_builder cfg) edge

builder-IsBuilt : IsBuilt builder
builder-IsBuilt = insert_edge-IsBuilt (new_builder cfg) edge (new_builder-IsBuilt cfg)

next_nodes_search_example : EndsAt (pos 3) builder.proto_edges ↔ (
    (i : ℕ) × (binary_search compare_ℤ (next_nodes {C = ℕ} builder).node_ids (pos 3) ≡ at i)
    × (get_elem? (next_nodes {C = ℕ} builder).node_ids i ≡ some (pos 3)))
next_nodes_search_example = next_nodes_search ℕ builder (pos 3) builder-IsBuilt

abbrev two_nodes : NodeBuilder ℕ ℕ
two_nodes = record {
  cfg = cfg;
  node_ids = pos 3 ∷ pos 7 ∷ [];
  node_coords = none ∷ none ∷ [];
  node_ch_levels = 0 ∷ 0 ∷ [];
  proto_edges = [];
  proto_shortcuts = [];
}

abbrev node : ProtoNode ℕ
node = record { id = pos 7; coord = 12; ch_level = some 2 }

insert_node_example :
    ((idx : ℕ) × (t : NodeBuilder ℕ ℕ) × (get_elem? two_nodes.node_ids idx ≡ some node.id)
      × (insert_node two_nodes node ≡ ok (t, true))
      × Written two_nodes idx node.coord node.ch_level t)
    ⊎ ((¬ In node.id two_nodes.node_ids) × (insert_node two_nodes node ≡ ok (two_nodes, false)))
insert_node_example = insert_node_lem two_nodes node ((refl, tt), (tt, tt)) (refl, refl)

check_coordinates_example :
    check_coordinates {C = ℕ} two_nodes.node_ids 0 (some 4 ∷ none ∷ [])
    ≡ err (no_coordinates (pos 7))
check_coordinates_example = check_coordinates_err two_nodes.node_ids 0 (4 ∷ []) [] (pos 7) refl
