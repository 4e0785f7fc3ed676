-- ===== src/Building/Finalize/Replaced.antt =====
-- On a complete builder no id is missed when the ids are replaced, and every level can be read.
use mathlib.Core.List.{append-nil, append_assoc}
use osmgraphing.Prelude.{
  ℕ, ◌<◌, ◌≡◌, refl, sym, ap, ◌∙◌, some, List, [], ◌∷◌, ◌++◌, map, In, All, arith, length,
  lt-length_of_get_elem?,
}
use osmgraphing.Prelude.Int.{ℤ, compare_ℤ, eq_of_compare_ℤ, compare_ℤ_refl}
use osmgraphing.Rust.Outcome.{ok}
use osmgraphing.Rust.Search.{at, binary_search_complete, binary_search_found, IsAscending}
use osmgraphing.Network.Graph.{NodeIdx, NodeAccessor, node_idx_from}
use osmgraphing.Building.Protos.{ProtoEdgeA, ProtoEdgeB}
use osmgraphing.Building.Chunks.{for_each}
use osmgraphing.Building.Remap.{old_indices}
use osmgraphing.Building.Stages.{expect_idx, proto_edge_b, replace_ids}

-- An inserted edge whose ends are nodes, whose shortcut is one of `k` and which has `d` metrics.
pub record IsComplete {F : Type 0} (ids : List ℤ) (k d : ℕ) (a : ProtoEdgeA F) : Type 0 where
  pub src : In a.src_id ids
  pub dst : In a.dst_id ids
  pub shortcut : (j : ℕ) → a.sc_edges ≡ some j → j < k
  pub dim : length a.metrics ≡ d

-- The same of an edge between the first `n` nodes.
pub record IsBetween {F : Type 0} (n k d : ℕ) (e : ProtoEdgeB F) : Type 0 where
  pub src : e.src_idx < n
  pub dst : e.dst_idx < n
  pub shortcut : (j : ℕ) → e.sc_edges ≡ some j → j < k
  pub dim : length e.metrics ≡ d

expect_idx_at :
    {C : Type 0} (nodes : NodeAccessor C) (id : ℤ) (i : NodeIdx)
    → node_idx_from nodes id ≡ at i
    → expect_idx nodes id ≡ ok i
expect_idx_at nodes id i h = ground arith

module _ {C : Type 0} (nodes : NodeAccessor C)
    (ascending : IsAscending compare_ℤ nodes.node_ids) where
  expect_idx_total :
      (id : ℤ)
      → In id nodes.node_ids
      → (i : NodeIdx) × (expect_idx nodes id ≡ ok i) × (i < length nodes.node_ids)
  unfolding node_idx_from
  expect_idx_total id m =
      let (i, e) = binary_search_complete compare_ℤ compare_ℤ_refl nodes.node_ids id ascending m in
      let found = binary_search_found compare_ℤ eq_of_compare_ℤ nodes.node_ids id i e in
      (i, expect_idx_at nodes id i e, lt-length_of_get_elem? nodes.node_ids i id found)

  proto_edge_b_total :
      {F : Type 0} (k d : ℕ) (a : ProtoEdgeA F)
      → IsComplete nodes.node_ids k d a
      → (e : ProtoEdgeB F) × (proto_edge_b nodes a ≡ ok e)
        × IsBetween (length nodes.node_ids) k d e
        × (e.idx ≡ a.idx)
  unfolding proto_edge_b
  proto_edge_b_total k d a h =
      let (i, found_i, low_i) = expect_idx_total a.src_id h.src in
      let (j, found_j, low_j) = expect_idx_total a.dst_id h.dst in
      (
        record {
          idx = a.idx;
          id = a.id;
          src_idx = i;
          dst_idx = j;
          metrics = a.metrics;
          sc_edges = a.sc_edges;
        },
        rw (found_i, found_j) refl,
        record { src = low_i; dst = low_j; shortcut = h.shortcut; dim = h.dim },
        refl,
      )

  -- The loop ends with all edges replaced, in their order.
  pub replace_ids_total :
      {F : Type 0} (k d : ℕ) (as' : List (ProtoEdgeA F)) (acc : List (ProtoEdgeB F))
      → All (IsComplete nodes.node_ids k d) as'
      → (bs : List (ProtoEdgeB F)) × (for_each (replace_ids nodes) as' acc ≡ ok (acc ++ bs))
        × All (IsBetween (length nodes.node_ids) k d) bs
        × (old_indices bs ≡ map (λ a. a.idx) as')
  unfolding for_each replace_ids
  replace_ids_total k d [] acc h = ([], ap ok (sym (append-nil acc)), tt, refl)
  replace_ids_total k d (a ∷ as') acc h =
      let (e, made, between, idx) = proto_edge_b_total k d a h.0 in
      let (bs, ends, all, same) = replace_ids_total k d as' (acc ++ e ∷ []) h.1 in
      (
        e ∷ bs,
        rw made (ends ∙ ap ok (append_assoc acc (e ∷ []) bs)),
        (between, all),
        λ i. idx i ∷ same i,
      )
