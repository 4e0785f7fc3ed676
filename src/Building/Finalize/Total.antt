-- ===== src/Building/Finalize/Total.antt =====
-- `finalize` does not panic on a builder whose parts fit.
use osmgraphing.Prelude.{
  ℕ, ◌+◌, ◌<◌, ◌≡◌, refl, sym, ap, ◌∙◌, inl, inr, Option, List, [], ◌∷◌, map, All, All-imp,
  IsSorted, arith, length, subst,
}
use osmgraphing.Rust.Outcome.{Outcome, ok, ok_inj, ◌>>=◌, Returns, returned}
use osmgraphing.Rust.Float.{Float64}
use osmgraphing.Network.Graph.{NodeIdx, EdgeIdx, Graph, NodeAccessor, nodes, node_level}
use osmgraphing.Building.Protos.{ProtoEdgeB, ProtoEdgeC, GraphBuilder}
use osmgraphing.Building.Nodes.{new_graph}
use osmgraphing.Building.Chunks.{in_chunks_lem}
use osmgraphing.Building.Shortcuts.Loop.{build_shortcuts_total, keys}
use osmgraphing.Building.Stages.{SortKey, compare_key, sort_backward, MetricsState, store_metrics}
use osmgraphing.Building.Offsets.Loops.{
  srcs, dsts, numbered, build_forward_total, build_backward_total,
}
use osmgraphing.Building.Normalize.{normalize}
use osmgraphing.Building.Finalize.{ChunkSizes, add_nodes, build_metrics, build_arrays, finalize}
use osmgraphing.Building.Finalize.Ends.{Ends, ends, ends_c}
use osmgraphing.Building.Finalize.Order.{sort_by_key-IsSorted}
use osmgraphing.Building.Finalize.Unique.{store_metrics-ends, unique_edges-ends}
use osmgraphing.Building.Finalize.Reading.{srcs-ends, srcs-ends_b}
use osmgraphing.Building.Finalize.Replaced.{IsBetween}
use osmgraphing.Building.Finalize.Sorted.{sort_by_key_total}
use osmgraphing.Building.Finalize.Corrected.{index_total}
use osmgraphing.Building.Finalize.Stored.{IsStored, store_metrics_total}
use osmgraphing.Building.Finalize.Prepared.{IsReady, All-map, All-map_of, unique_edges_total}
use osmgraphing.Building.Finalize.Returns.{
  check_coordinates-Returns, check_metrics-Returns, build_edge_ids-Returns, normalize-Returns,
}

numbered-srcs :
    (P : NodeIdx → Type 0) (k : ℕ) (es : List ProtoEdgeC)
    → All (λ e. P e.src_idx) es
    → All (λ e. P e.src_idx) (numbered k es)
numbered-srcs P k [] h = tt
numbered-srcs P k (e ∷ es) h = (h.0, numbered-srcs P (k + 1) es h.1)

module _ {C : Type 0} (n : NodeAccessor C) where
  abbrev backward_key : ProtoEdgeC → Outcome SortKey
  backward_key e = node_level n e.src_idx >>= λ level.
      ok (record { first = e.dst_idx; level = level; second = e.src_idx; id = e.id })

  -- The backward-edges are sorted by their destinations.
  sort_backward_total :
      (es : List ProtoEdgeC)
      → All (λ e. e.src_idx < length n.node_ch_levels) es
      → (s : List ProtoEdgeC) × (sort_backward n es ≡ ok s) × IsSorted (dsts s)
  unfolding sort_backward node_level
  sort_backward_total es low =
      let (s, ends, _, _) =
        sort_by_key_total compare_key backward_key (λ e. e.idx) es
          (All-imp
            (λ e h.
              let (level, read, _) = index_total n.node_ch_levels e.src_idx h in
              (
                record { first = e.dst_idx; level = level; second = e.src_idx; id = e.id },
                rw read refl,
              ))
            es low) in
      let (sorted, _) =
        sort_by_key-IsSorted backward_key (λ e. e.dst_idx)
          (λ e k q.
            let (level, made, _) = returned k (node_level n e.src_idx) _ q in
            ap (λ (x : SortKey). x.first) (ok_inj (sym made)))
          es s ends in
      (s, ends, sorted)

module _ {F C : Type 0} where
  -- The nodes of a builder.
  abbrev pub builder_nodes : GraphBuilder F C → NodeAccessor (Option C)
  builder_nodes b = record {
    node_ids = b.node_ids;
    node_coords = b.node_coords;
    node_ch_levels = b.node_ch_levels;
  }

module _ {F : Type 0} ⦃f : Float64 F⦄ {C : Type 0} where
  -- What the normalisation needs of the graph.
  abbrev HasDims : Graph F C → Type 0
  HasDims g = All (λ m. length m ≡ g.cfg.dim) g.metrics

  build_arrays-normalize-Returns :
      (graph : Graph F C) (s : MetricsState F)
      → IsStored graph.cfg.dim s
      → IsSorted (srcs s.new_proto_edges)
      → All (λ e. e.src_idx < length (nodes graph).node_ch_levels) s.new_proto_edges
      → Returns (build_arrays graph s >>= normalize)
  unfolding build_arrays
  build_arrays-normalize-Returns graph s stored sorted low =
      let es = s.new_proto_edges in
      let (sc, scs, _) =
        build_shortcuts_total s.new_sc_edges (length es) stored.strict
          (All-imp (λ x q. omega (arith, q, stored.count)) (keys s.new_sc_edges) stored.below) in
      let (fwd, built, p) = build_forward_total es sorted in
      let passed =
        subst (All (λ e. e.src_idx < length (nodes graph).node_ch_levels)) (sym p.edges)
          (numbered-srcs (λ u. u < length (nodes graph).node_ch_levels) 0 es low) in
      let (backward, sorted_b, order) = sort_backward_total (nodes graph) fwd.passed passed in
      let (bwd, built_b, _) = build_backward_total backward order in
      rw (scs, built)
        (elim (build_edge_ids-Returns fwd.edge_ids_to_idx_map) [
          | inr (msg, e) ↦ inr (msg, rw e refl)
          | inl (ids, e) ↦ rw (e, sorted_b, built_b) (normalize-Returns _ stored.dims)
        ])

  build_metrics-Returns :
      (size : ℕ) (graph : Graph F C) (b : GraphBuilder F C)
      (unique : List (ProtoEdgeB F) × List (EdgeIdx × EdgeIdx))
      → 0 < size
      → IsSorted (map (λ e. e.src_idx) unique.0)
      → length (nodes graph).node_ch_levels ≡ length (nodes graph).node_ids
      → All (IsBetween (length (nodes graph).node_ids) (length unique.1) graph.cfg.dim) unique.0
      → Returns (build_metrics size unique.0 unique.1 >>= λ s. build_arrays graph s >>= normalize)
  unfolding build_metrics
  build_metrics-Returns size graph b unique positive sorted levels between =
      let start : MetricsState F = record {
        metrics = [];
        new_proto_edges = [];
        new_sc_edges = [];
        edge_idx = 0;
      } in
      let whole = in_chunks_lem size (store_metrics unique.1) unique.0 start positive in
      let (s, ends_s, stored) =
        store_metrics_total graph.cfg.dim unique.1 unique.0 start
          (All-imp (λ e q. q.shortcut) unique.0 between) (All-imp (λ e q. q.dim) unique.0 between)
          (record { strict = tt; below = tt; count = refl; dims = tt }) in
      let same = store_metrics-ends unique.1 unique.0 start s ends_s in
      let ordered : IsSorted (srcs s.new_proto_edges) =
        subst IsSorted
          (srcs-ends_b unique.0
            ∙ ap (map (λ (q : Ends). q.0)) (sym same)
            ∙ sym (srcs-ends s.new_proto_edges))
          sorted in
      let bound = length (nodes graph).node_ch_levels in
      let low =
        All-map (λ (q : Ends). q.0 < bound) ends_c s.new_proto_edges
          (subst (All (λ (q : Ends). q.0 < bound)) (sym same) (
            All-map_of (λ (q : Ends). q.0 < bound) ends unique.0
              (All-imp (λ e q. omega (arith, q.src, levels)) unique.0 between))) in
      rw whole (
        rw ends_s (elim (check_metrics-Returns s.metrics) [
          | inr (msg, e) ↦ inr (msg, rw e refl)
          | inl (_, e) ↦ rw e (build_arrays-normalize-Returns graph s stored ordered low)
        ]))

  -- If the chunks of both loops have a positive size, the builder has a coordinate-entry and a
  -- level for each node-id, its node-ids are strictly ascending, and every edge has its ends among
  -- them, refers to a stored shortcut or none, and has as many metrics as the configuration says,
  -- and if the edges' indices are all below their number and none occurs twice, and the halves of
  -- every shortcut are edges, then `finalize` returns a graph or an error: no index is out of
  -- range, no id is missed, and every loop ends.
  pub finalize_total :
      (sizes : ChunkSizes) (b : GraphBuilder F C)
      → 0 < sizes.proto_edges_b
      → 0 < sizes.proto_shortcuts
      → length b.node_coords ≡ length b.node_ids
      → IsReady (builder_nodes b) b
      → Returns (finalize sizes b)
  unfolding finalize add_nodes nodes new_graph
  finalize_total sizes b positive_b positive_s coords h =
      elim (check_coordinates-Returns b.node_ids 0 b.node_coords (omega (arith, coords))) [
        | inr (msg, e) ↦ inr (msg, rw e refl)
        | inl (cs, e) ↦
            let graph : Graph F C = record (new_graph b.cfg) {
              node_ids = b.node_ids;
              node_coords = cs;
              node_ch_levels = b.node_ch_levels;
            } in
            let ready : IsReady (nodes graph) b = record {
              ascending = h.ascending;
              levels = h.levels;
              complete = h.complete;
              low = h.low;
              unique = h.unique;
              halves = h.halves;
            } in
            let (unique, made, between) =
              unique_edges_total sizes.proto_edges_b graph b positive_b ready in
            let (sorted, _) =
              unique_edges-ends sizes.proto_edges_b graph b unique positive_b made in
            rw e (
              rw made (
                build_metrics-Returns sizes.proto_shortcuts graph b unique positive_s sorted
                  h.levels between))
      ]
