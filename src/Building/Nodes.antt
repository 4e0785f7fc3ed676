-- ===== src/Building/Nodes.antt =====
-- network/graph/building.rs: `EdgeBuilder`, which collects edges and their end-nodes' ids,
-- `NodeBuilder`, which collects coordinates, and the first stages of `GraphBuilder::finalize`.
pub mod Ids
pub mod Edges
pub mod Coordinates
pub mod Insertions
use osmgraphing.Prelude.{
  ℕ, suc, ◌+◌, ◌-◌, Bool, true, false, Option, none, some, List, [], ◌∷◌, ◌++◌, ◌||◌, length, take,
  drop, map, replicate, if◌then◌else◌, ltb, Ordering,
}
use osmgraphing.Prelude.Int.{ℤ, compare_ℤ}
use osmgraphing.Rust.Outcome.{Outcome, ok, err, panic, ◌>>=◌, no_coordinates}
use osmgraphing.Rust.Vec.{index, store}
use osmgraphing.Rust.Search.{at, missing, binary_search}
use osmgraphing.Rust.Sort.{sort_by, dedup_by}
use osmgraphing.Network.Graph.{EdgeIdx, Config, Graph}
use osmgraphing.Building.Protos.{
  ProtoNode, ProtoEdge, ProtoShortcut, ProtoEdgeA, EdgeBuilder, NodeBuilder, GraphBuilder,
}

abbrev pub eq_ℤ : ℤ → ℤ → Bool
eq_ℤ a b = elim (compare_ℤ a b) [ Ordering.eq ↦ true | _ ↦ false ]

-- `slice::contains`
unfoldable pub contains : List ℤ → ℤ → Bool
contains [] id = false
contains (x ∷ xs) id = eq_ℤ x id || contains xs id

-- One round of the loop over the two new ids; `n` is the length before the loop, and `k` is 2.
unfoldable pub push_unseen : ℕ → List ℤ → ℤ → List ℤ
unfolding contains
push_unseen n node_ids new_id =
    if contains (take 2 (drop (n - 2) node_ids)) new_id then node_ids else node_ids ++ new_id ∷ []

-- The ids behind an `insert`.
unfoldable pub insert_ids : List ℤ → ℤ → ℤ → List ℤ
unfolding push_unseen
insert_ids node_ids src_id dst_id =
    let n = length node_ids in
    if ltb n 2
    then node_ids ++ src_id ∷ dst_id ∷ []
    else push_unseen n (push_unseen n node_ids src_id) dst_id

-- The defaults of defaults::network::nodes.
abbrev pub default_level : ℕ
default_level = 0

module _ {F : Type 0} where
  -- `GraphBuilder::new`
  unfoldable pub new_builder : Config → EdgeBuilder F
  new_builder cfg = record { cfg = cfg; node_ids = []; proto_edges = []; proto_shortcuts = [] }

  -- `ProtoEdge::into`
  unfoldable pub into_shortcut : ProtoEdge F → ProtoShortcut F
  into_shortcut e = record { proto_edge = e; sc_edges = none }

  abbrev pub proto_edge_a : ℕ → ProtoEdge F → Option ℕ → ProtoEdgeA F
  proto_edge_a idx e sc = record {
    idx = idx;
    id = e.id;
    src_id = e.src_id;
    dst_id = e.dst_id;
    metrics = e.metrics;
    sc_edges = sc;
  }

  -- The body of `EdgeBuilder::insert`, by whether the edge is a shortcut.
  unfoldable pub insert_with :
      EdgeBuilder F → ProtoEdge F → Option (EdgeIdx × EdgeIdx) → EdgeBuilder F
  insert_with b e (some sc_edges) = record b {
    node_ids = insert_ids b.node_ids e.src_id e.dst_id;
    proto_edges =
        b.proto_edges
        ++ proto_edge_a (length b.proto_edges) e (some (length b.proto_shortcuts)) ∷ [];
    proto_shortcuts = b.proto_shortcuts ++ sc_edges ∷ [];
  }
  insert_with b e none = record b {
    node_ids = insert_ids b.node_ids e.src_id e.dst_id;
    proto_edges = b.proto_edges ++ proto_edge_a (length b.proto_edges) e none ∷ [];
  }

  -- `EdgeBuilder::insert`
  unfoldable pub insert_edge : EdgeBuilder F → ProtoShortcut F → EdgeBuilder F
  unfolding insert_with
  insert_edge b p = insert_with b p.proto_edge p.sc_edges

module _ {F C : Type 0} where
  -- `Graph::new`
  unfoldable pub new_graph : Config → Graph F C
  new_graph cfg = record {
    cfg = cfg;
    node_ids = [];
    node_coords = [];
    node_ch_levels = [];
    fwd_dsts = [];
    fwd_offsets = [];
    fwd_to_fwd_map = [];
    bwd_dsts = [];
    bwd_offsets = [];
    bwd_to_fwd_map = [];
    metrics = [];
    means = none;
    edge_ids = [];
    edge_ids_to_idx_map = [];
    sc_offsets = [];
    sc_edges = [];
  }

  -- `EdgeBuilder::next`
  unfoldable pub next_nodes : EdgeBuilder F → NodeBuilder F C
  next_nodes b =
      let ids = dedup_by eq_ℤ (sort_by compare_ℤ b.node_ids) in
      record {
        cfg = b.cfg;
        node_ids = ids;
        node_coords = replicate (length ids) none;
        node_ch_levels = replicate (length ids) default_level;
        proto_edges = b.proto_edges;
        proto_shortcuts = b.proto_shortcuts;
      }

  -- The writes of `NodeBuilder::insert`.
  unfoldable pub write_node : NodeBuilder F C → ℕ → C → Option ℕ → Outcome (NodeBuilder F C)
  write_node b idx coord (some ch_level) = store b.node_coords idx (some coord) >>= λ coords.
      store b.node_ch_levels idx ch_level >>= λ levels.
      ok (record b { node_coords = coords; node_ch_levels = levels })
  write_node b idx coord none =
      store b.node_coords idx (some coord) >>= λ coords. ok (record b { node_coords = coords })

  -- `NodeBuilder::insert`
  unfoldable pub insert_node : NodeBuilder F C → ProtoNode C → Outcome (NodeBuilder F C × Bool)
  unfolding write_node
  insert_node b p = elim (binary_search compare_ℤ b.node_ids p.id) [
    | at idx ↦ write_node b idx p.coord p.ch_level >>= λ written. ok (written, true)
    | missing idx ↦ ok (b, false)
  ]

  -- `NodeBuilder::next`
  unfoldable pub next_graph : NodeBuilder F C → GraphBuilder F C
  next_graph b = record {
    cfg = b.cfg;
    node_ids = b.node_ids;
    node_coords = b.node_coords;
    node_ch_levels = b.node_ch_levels;
    proto_edges = b.proto_edges;
    proto_shortcuts = b.proto_shortcuts;
  }

-- `finalize`: every node needs a coordinate. The first that has none is reported; `unwrap` then
-- takes the coordinates out.
unfoldable pub check_coordinates : {C : Type 0} → List ℤ → ℕ → List (Option C) → Outcome (List C)
check_coordinates node_ids idx [] = ok []
check_coordinates node_ids idx (none ∷ coords) =
    index node_ids idx >>= λ id. err (no_coordinates id)
check_coordinates node_ids idx (some c ∷ coords) =
    check_coordinates node_ids (idx + 1) coords >>= λ rest. ok (c ∷ rest)
