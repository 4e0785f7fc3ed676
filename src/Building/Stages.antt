-- ===== src/Building/Stages.antt =====
-- network/graph/building.rs, `finalize`: the stages between the other ones. The node-ids of the
-- edges are replaced by indices, the edges are sorted, and their metrics are stored.
use osmgraphing.Prelude.{
  ℕ, ◌+◌, Bool, true, false, not, Option, none, some, List, [], ◌∷◌, ◌++◌, map, Ordering, compare,
  if◌then◌else◌,
}
use osmgraphing.Prelude.Int.{ℤ}
use osmgraphing.Rust.Outcome.{Outcome, ok, panic, ◌>>=◌, collect}
use osmgraphing.Rust.Vec.{index, store}
use osmgraphing.Rust.Search.{at, missing}
use osmgraphing.Rust.Sort.{sort_by}
use osmgraphing.Rust.Float.{Float64}
use osmgraphing.Approximating.{approx_eq}
use osmgraphing.Network.Graph.{NodeIdx, EdgeIdx, NodeAccessor, node_idx_from, node_level}
use osmgraphing.Building.Protos.{ProtoEdgeA, ProtoEdgeB, ProtoEdgeC}
use osmgraphing.Building.Shortcuts.{ScEdge}
use osmgraphing.Building.Dedup.{correct_shortcut}

-- `nodes.idx_from(id).expect(..)`
abbrev pub expect_idx : {C : Type 0} → NodeAccessor C → ℤ → Outcome NodeIdx
expect_idx nodes id = elim (node_idx_from nodes id) [ at idx ↦ ok idx | missing idx ↦ panic ]

module _ {F C : Type 0} where
  -- One edge with its nodes' indices.
  unfoldable pub proto_edge_b : NodeAccessor C → ProtoEdgeA F → Outcome (ProtoEdgeB F)
  proto_edge_b nodes edge = expect_idx nodes edge.src_id >>= λ src_idx.
      expect_idx nodes edge.dst_id >>= λ dst_idx. ok (record {
        idx = edge.idx;
        id = edge.id;
        src_idx = src_idx;
        dst_idx = dst_idx;
        metrics = edge.metrics;
        sc_edges = edge.sc_edges;
      })

  -- The body of the loop over a chunk of proto-edges.
  unfoldable pub replace_ids :
      NodeAccessor C → ProtoEdgeA F → List (ProtoEdgeB F) → Outcome (List (ProtoEdgeB F))
  unfolding proto_edge_b
  replace_ids nodes edge new_proto_edges =
      proto_edge_b nodes edge >>= λ e. ok (new_proto_edges ++ e ∷ [])

-- defaults::routing::IS_USING_CH_LEVEL_SPEEDUP
abbrev pub is_using_ch_level_speedup : Bool
is_using_ch_level_speedup = true

abbrev pub then_by : Ordering → Ordering → Ordering
then_by Ordering.lt next = Ordering.lt
then_by Ordering.eq next = next
then_by Ordering.gt next = Ordering.gt

-- `Option<usize>`: `None` is the least.
abbrev pub compare_id : Option ℕ → Option ℕ → Ordering
compare_id none none = Ordering.eq
compare_id none (some b) = Ordering.lt
compare_id (some a) none = Ordering.gt
compare_id (some a) (some b) = compare a b

-- What the edges are sorted by: a node, the other node and its level, and the id.
pub record SortKey : Type 0 where
  pub first : NodeIdx
  pub level : ℕ
  pub second : NodeIdx
  pub id : Option ℕ

-- The tuple with `Reverse(level)`.
unfoldable pub compare_key : SortKey → SortKey → Ordering
compare_key a b =
    then_by (compare a.first b.first) (
      then_by (compare b.level a.level)
        (then_by (compare a.second b.second) (compare_id a.id b.id)))

-- The tuples without levels.
unfoldable pub compare_plain_key : Bool → SortKey → SortKey → Ordering
compare_plain_key with_id a b =
    then_by (compare a.first b.first)
      (then_by (compare a.second b.second) (if with_id then compare_id a.id b.id else Ordering.eq))

-- `sort_by_key`: the elements are paired with their keys and sorted by them. A level that cannot be
-- read is a panic also for a single edge, which the source does not compare; there is no such
-- level, since the nodes' levels are as many as their ids.
unfoldable pub sort_by_key :
    {E : Type 0}
    → (SortKey → SortKey → Ordering)
    → (E → Outcome SortKey)
    → List E
    → Outcome (List E)
sort_by_key {E = E} cmp key edges =
    collect {B = SortKey × E} (λ e. key e >>= λ k. ok (k, e)) edges >>= λ keyed.
    ok (map (λ p. p.1) (sort_by (λ p q. cmp p.0 q.0) keyed))

module _ {F C : Type 0} where
  -- The sorting of the forward-edges.
  unfoldable pub sort_forward : NodeAccessor C → List (ProtoEdgeB F) → Outcome (List (ProtoEdgeB F))
  unfolding sort_by_key
  sort_forward nodes edges =
      if not is_using_ch_level_speedup
      then sort_by_key (compare_plain_key true)
          (λ e. ok (record { first = e.src_idx; level = 0; second = e.dst_idx; id = e.id })) edges
      else sort_by_key compare_key
          (λ e. node_level nodes e.dst_idx >>= λ level.
            ok (record { first = e.src_idx; level = level; second = e.dst_idx; id = e.id }))
          edges

module _ {C : Type 0} where
  -- The sorting of the backward-edges.
  unfoldable pub sort_backward : NodeAccessor C → List ProtoEdgeC → Outcome (List ProtoEdgeC)
  unfolding sort_by_key
  sort_backward nodes edges =
      if not is_using_ch_level_speedup
      then sort_by_key (compare_plain_key false)
          (λ e. ok (record { first = e.dst_idx; level = 0; second = e.src_idx; id = e.id })) edges
      else sort_by_key compare_key
          (λ e. node_level nodes e.src_idx >>= λ level.
            ok (record { first = e.dst_idx; level = level; second = e.src_idx; id = e.id }))
          edges

-- The correction of the shortcuts that remain behind the removal of duplicates.
unfoldable pub correct_shortcuts :
    {F : Type 0}
    → List ℕ
    → List (ProtoEdgeB F)
    → List (EdgeIdx × EdgeIdx)
    → Outcome (List (EdgeIdx × EdgeIdx))
unfolding correct_shortcut
correct_shortcuts removed_indices [] proto_shortcuts = ok proto_shortcuts
correct_shortcuts removed_indices (edge ∷ edges) proto_shortcuts = elim edge.sc_edges [
  | none ↦ correct_shortcuts removed_indices edges proto_shortcuts
  | some sc_idx ↦ index proto_shortcuts sc_idx >>= λ old.
      store proto_shortcuts sc_idx (correct_shortcut removed_indices old)
      >>= correct_shortcuts removed_indices edges
]

-- The variables of the loop that stores the metrics.
pub record MetricsState (F : Type 0) : Type 0 where
  pub metrics : List (List F)
  pub new_proto_edges : List ProtoEdgeC
  pub new_sc_edges : List ScEdge
  pub edge_idx : EdgeIdx

module _ {F : Type 0} ⦃f : Float64 F⦄ where
  -- `Graph::add_metrics`: metrics around zero are corrected.
  unfoldable pub corrected : F → F
  corrected metric = if approx_eq metric f.zero then f.f64_abs else metric

  unfoldable pub add_metrics : List (List F) → ProtoEdgeB F → List (List F)
  unfolding corrected
  add_metrics metrics edge = metrics ++ map corrected edge.metrics ∷ []

  -- A shortcut-edge's entry in `new_sc_edges`.
  unfoldable pub remember_shortcut :
      List (EdgeIdx × EdgeIdx) → ProtoEdgeB F → EdgeIdx → List ScEdge → Outcome (List ScEdge)
  remember_shortcut proto_shortcuts edge edge_idx new_sc_edges = elim edge.sc_edges [
    | none ↦ ok new_sc_edges
    | some sc_idx ↦ index proto_shortcuts sc_idx >>= λ sc. ok (new_sc_edges ++ (edge_idx, sc) ∷ [])
  ]

  -- The body of the loop over a chunk.
  unfoldable pub store_metrics :
      List (EdgeIdx × EdgeIdx) → ProtoEdgeB F → MetricsState F → Outcome (MetricsState F)
  unfolding add_metrics remember_shortcut
  store_metrics proto_shortcuts edge s =
      remember_shortcut proto_shortcuts edge s.edge_idx s.new_sc_edges >>= λ new_sc_edges.
      ok (record {
        metrics = add_metrics s.metrics edge;
        new_proto_edges =
            s.new_proto_edges
            ++ (record { src_idx = edge.src_idx; dst_idx = edge.dst_idx; idx = 0; id = edge.id })
              ∷ [];
        new_sc_edges = new_sc_edges;
        edge_idx = s.edge_idx + 1;
      })
