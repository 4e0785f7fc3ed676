-- ===== src/Building/Finalize/Unique.antt =====
-- The edges that are left without duplicates join the nodes that inserted edges join.
use mathlib.Core.List.{append-nil, append_assoc, map-append}
use osmgraphing.Prelude.{
  ℕ, ◌<◌, ◌≡◌, sym, ap, ◌∙◌, ◌↔◌, inl, inr, List, [], ◌∷◌, ◌++◌, map, In, IsSorted,
}
use osmgraphing.Rust.Outcome.{ok, ok_inj, returned}
use osmgraphing.Rust.Float.{Float64}
use osmgraphing.Network.Graph.{EdgeIdx, Graph, nodes}
use osmgraphing.Building.Protos.{ProtoEdgeA, ProtoEdgeB, GraphBuilder}
use osmgraphing.Building.Chunks.{for_each, in_chunks_lem}
use osmgraphing.Building.Stages.{
  replace_ids, sort_forward, correct_shortcuts, MetricsState, store_metrics, remember_shortcut,
}
use osmgraphing.Building.Checks.{check_metrics}
use osmgraphing.Building.Remap.{remap_shortcuts}
use osmgraphing.Building.Dedup.{is_duplicate, remove_duplicates}
use osmgraphing.Building.Finalize.{unique_edges, build_metrics}
use osmgraphing.Building.Finalize.Ends.{Ends, ends, ends_c, Joins, replace_ids-ends}
use osmgraphing.Building.Finalize.Order.{
  same-map, sort_forward-IsSorted, remove_duplicates-IsSorted,
}

module _ {F : Type 0} ⦃f : Float64 F⦄ where
  pub store_metrics-ends :
      (sc : List (EdgeIdx × EdgeIdx)) (es : List (ProtoEdgeB F)) (s t : MetricsState F)
      → for_each (store_metrics sc) es s ≡ ok t
      → map ends_c t.new_proto_edges ≡ map ends_c s.new_proto_edges ++ map ends es
  unfolding for_each store_metrics
  store_metrics-ends sc [] s t h =
      let q : s ≡ t = ok_inj h in
      ap (λ (x : MetricsState F). map ends_c x.new_proto_edges) (sym q)
      ∙ sym (append-nil (map ends_c s.new_proto_edges))
  store_metrics-ends sc (e ∷ es) s t h =
      let (s', rest, step) = returned t (store_metrics sc e s) (for_each (store_metrics sc) es) h in
      let (scs, made, remembered) =
        returned s' (remember_shortcut sc e s.edge_idx s.new_sc_edges) _ step in
      let pushed = ap (λ (o : MetricsState F). map ends_c o.new_proto_edges) (sym (ok_inj made)) in
      store_metrics-ends sc es s' t rest
      ∙ ap (λ l. l ++ map ends es) (pushed ∙ map-append ends_c s.new_proto_edges _)
      ∙ append_assoc (map ends_c s.new_proto_edges) (ends e ∷ []) (map ends es)

  pub build_metrics-ends :
      (size : ℕ) (es : List (ProtoEdgeB F)) (sc : List (EdgeIdx × EdgeIdx)) (s : MetricsState F)
      → 0 < size
      → build_metrics size es sc ≡ ok s
      → map ends_c s.new_proto_edges ≡ map ends es
  unfolding build_metrics
  build_metrics-ends size es sc s positive h =
      let start : MetricsState F = record {
        metrics = [];
        new_proto_edges = [];
        new_sc_edges = [];
        edge_idx = 0;
      } in
      let whole = in_chunks_lem size (store_metrics sc) es start positive in
      let (s', checked, stored) =
        returned s (for_each (store_metrics sc) es start) _ (rw whole at h) in
      let (u, same, passed) = returned s (check_metrics s'.metrics) (λ _. ok s') checked in
      ap (λ (x : MetricsState F). map ends_c x.new_proto_edges) (sym (ok_inj same))
      ∙ store_metrics-ends sc es start s' stored

module _ {F : Type 0} ⦃f : Float64 F⦄ {C : Type 0} where
  -- The edges without duplicates join the nodes that the inserted edges join.
  pub unique_edges-ends :
      (size : ℕ) (graph : Graph F C) (b : GraphBuilder F C)
      (unique : List (ProtoEdgeB F) × List (EdgeIdx × EdgeIdx))
      → 0 < size
      → unique_edges size graph b ≡ ok unique
      → IsSorted (map (λ e. e.src_idx) unique.0)
        × ((p : Ends)
            → In p (map ends unique.0)
              ↔ ((a : ProtoEdgeA F) × In a b.proto_edges × Joins (nodes graph) a p))
  unfolding unique_edges
  unique_edges-ends size graph b unique positive h =
      let whole = in_chunks_lem size (replace_ids (nodes graph)) b.proto_edges [] positive in
      let (replaced, h1, r) =
        returned unique (for_each (replace_ids (nodes graph)) b.proto_edges []) _ (rw whole at h) in
      let (sorted, h2, s) = returned unique (sort_forward (nodes graph) replaced) _ h1 in
      let (remapped, h3, m) = returned unique (remap_shortcuts sorted b.proto_shortcuts) _ h2 in
      let (kept_edges, h4, d) = returned unique (remove_duplicates is_duplicate sorted) _ h3 in
      let (sc, made, c) =
        returned unique (correct_shortcuts kept_edges.1 kept_edges.0 remapped) _ h4 in
      let left : kept_edges.0 ≡ unique.0 = ap (λ x. x.0) (ok_inj made) in
      let (ordered, same) = sort_forward-IsSorted (nodes graph) replaced sorted s in
      let (still, joined) = remove_duplicates-IsSorted sorted kept_edges d ordered in
      rw (← left) (
        still,
        λ p.
            let first = replace_ids-ends (nodes graph) b.proto_edges [] replaced r p in
            let second = same-map ends sorted replaced same p in
            let third = joined p in
            (
              λ m. elim (first.0 (second.0 (third.0 m))) [ inl n ↦ absurd n | inr n ↦ n ],
              λ n. third.1 (second.1 (first.1 (inr n))),
            ),
      )
