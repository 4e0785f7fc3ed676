-- ===== src/Tests/Built.antt =====
-- Two edges, a shortcut over them, and their nodes are inserted and finished.
use osmgraphing.Prelude.{ℕ, ◌≡◌, refl, none, some, List, [], ◌∷◌, All, arith, length, true}
use osmgraphing.Prelude.Int.{pos}
use osmgraphing.Rust.Outcome.{ok, Returns}
use osmgraphing.Network.Graph.{Config}
use osmgraphing.Building.Protos.{ProtoNode, ProtoShortcut, EdgeBuilder, NodeBuilder}
use osmgraphing.Building.Nodes.{new_builder, insert_edge, insert_with, next_nodes, next_graph}
use osmgraphing.Building.Nodes.Edges.{IsBuilt, new_builder-IsBuilt, insert_edge-IsBuilt}
use osmgraphing.Building.Finalize.{ChunkSizes, finalize}
use osmgraphing.Building.Finalize.Corrected.{AreBelow}
use osmgraphing.Building.Finalize.Built.{finalize_built}
use osmgraphing.Building.Nodes.Insertions.{insert_nodes}
use osmgraphing.Tests.Numbers.{numbers}

abbrev cfg : Config
cfg = record { dim = 1; are_normalized = true }

abbrev first : ProtoShortcut ℕ
first = record {
  proto_edge = record { id = some 4; src_id = pos 7; dst_id = pos 3; metrics = 5 ∷ [] };
  sc_edges = none;
}

abbrev then_on : ProtoShortcut ℕ
then_on = record {
  proto_edge = record { id = some 5; src_id = pos 3; dst_id = pos 9; metrics = 6 ∷ [] };
  sc_edges = none;
}

abbrev over_both : ProtoShortcut ℕ
over_both = record {
  proto_edge = record { id = some 6; src_id = pos 7; dst_id = pos 9; metrics = 11 ∷ [] };
  sc_edges = some (0, 1);
}

abbrev edges : EdgeBuilder ℕ
edges = insert_edge (insert_edge (insert_edge (new_builder cfg) first) then_on) over_both

edges-IsBuilt : IsBuilt edges
edges-IsBuilt =
    insert_edge-IsBuilt (insert_edge (insert_edge (new_builder cfg) first) then_on) over_both (
      insert_edge-IsBuilt (insert_edge (new_builder cfg) first) then_on
        (insert_edge-IsBuilt (new_builder cfg) first (new_builder-IsBuilt cfg)))

edges-AreBelow : All (AreBelow (length edges.proto_edges)) edges.proto_shortcuts
unfolding insert_edge insert_with new_builder
edges-AreBelow = ((omega arith, omega arith), tt)

edges_dims : All (λ a. length a.metrics ≡ edges.cfg.dim) edges.proto_edges
unfolding insert_edge insert_with new_builder
edges_dims = (refl, (refl, (refl, tt)))

abbrev places : List (ProtoNode ℕ)
places =
    record { id = pos 7; coord = 1; ch_level = none }
    ∷ record { id = pos 3; coord = 2; ch_level = some 2 }
    ∷ record { id = pos 9; coord = 3; ch_level = none }
    ∷ []

abbrev sizes : ChunkSizes
sizes = record { proto_edges_b = 2; proto_shortcuts = 2 }

finalize_built_example :
    (nodes : NodeBuilder ℕ ℕ) × (insert_nodes (next_nodes edges) places ≡ ok nodes)
    × Returns (finalize ⦃f = numbers⦄ sizes (next_graph nodes))
finalize_built_example =
    finalize_built ⦃f = numbers⦄ sizes edges places (omega arith) (omega arith) edges-IsBuilt
      edges-AreBelow edges_dims
