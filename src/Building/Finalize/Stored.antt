-- ===== src/Building/Finalize/Stored.antt =====
-- The loop that stores the metrics ends, and lists the shortcut-edges in strictly ascending order.
use mathlib.Core.List.{map-append}
use osmgraphing.Prelude.{
  ℕ, ◌+◌, ◌<◌, ◌≡◌, refl, sym, ◌∙◌, inl, inr, List, [], ◌∷◌, ◌++◌, All, All-imp, All-append, arith,
  length, length-append, length-map, Option-cases, subst,
}
use osmgraphing.Rust.Outcome.{ok}
use osmgraphing.Rust.Float.{Float64}
use osmgraphing.Network.Graph.{EdgeIdx}
use osmgraphing.Building.Protos.{ProtoEdgeB}
use osmgraphing.Building.Chunks.{for_each}
use osmgraphing.Building.Shortcuts.{ScEdge}
use osmgraphing.Building.Shortcuts.Counts.{IsStrict}
use osmgraphing.Building.Shortcuts.Loop.{keys}
use osmgraphing.Building.Stages.{
  MetricsState, corrected, add_metrics, remember_shortcut, store_metrics,
}
use osmgraphing.Building.Finalize.Corrected.{RefersTo, index_total}

IsStrict-append :
    (xs : List ℕ) (k : ℕ) → IsStrict xs → All (λ x. x < k) xs → IsStrict (xs ++ k ∷ [])
IsStrict-append [] k h below = (tt, tt)
IsStrict-append (x ∷ xs) k h below =
    (All-append (λ y. x < y) xs (k ∷ []) h.0 (below.0, tt), IsStrict-append xs k h.1 below.1)

module _ {F : Type 0} ⦃f : Float64 F⦄ where
  pub record IsStored (d : ℕ) (s : MetricsState F) : Type 0 where
    pub strict : IsStrict (keys s.new_sc_edges)
    pub below : All (λ x. x < s.edge_idx) (keys s.new_sc_edges)
    pub count : length s.new_proto_edges ≡ s.edge_idx
    pub dims : All (λ m. length m ≡ d) s.metrics

  remember_shortcut_total :
      (d : ℕ) (scs : List (EdgeIdx × EdgeIdx)) (e : ProtoEdgeB F) (s : MetricsState F)
      → RefersTo (length scs) e
      → IsStored d s
      → (new : List ScEdge) × (remember_shortcut scs e s.edge_idx s.new_sc_edges ≡ ok new)
        × IsStrict (keys new)
        × All (λ x. x < s.edge_idx + 1) (keys new)
  unfolding remember_shortcut
  remember_shortcut_total d scs e s refers h =
      let wider : All (λ x. x < s.edge_idx + 1) (keys s.new_sc_edges) =
        All-imp (λ x p. omega arith) (keys s.new_sc_edges) h.below in
      elim (Option-cases e.sc_edges) [
        | inl q ↦ (s.new_sc_edges, rw (remember_shortcut, q) refl, h.strict, wider)
        | inr (j, q) ↦
            let (sc, read, _) = index_total scs j (refers j q) in
            let grown = map-append (λ (x : ScEdge). x.0) s.new_sc_edges ((s.edge_idx, sc) ∷ []) in
            (
              s.new_sc_edges ++ (s.edge_idx, sc) ∷ [],
              rw (remember_shortcut, q, read) refl,
              subst IsStrict (sym grown)
                  (IsStrict-append (keys s.new_sc_edges) s.edge_idx h.strict h.below),
              subst (All (λ x. x < s.edge_idx + 1)) (sym grown)
                  (All-append _ (keys s.new_sc_edges) _ wider (omega arith, tt)),
            )
      ]

  pub store_metrics_total :
      (d : ℕ) (scs : List (EdgeIdx × EdgeIdx)) (es : List (ProtoEdgeB F)) (s : MetricsState F)
      → All (RefersTo (length scs)) es
      → All (λ e. length e.metrics ≡ d) es
      → IsStored d s
      → (t : MetricsState F) × (for_each (store_metrics scs) es s ≡ ok t) × IsStored d t
  unfolding for_each store_metrics add_metrics
  store_metrics_total d scs [] s refers dims h = (s, refl, h)
  store_metrics_total d scs (e ∷ es) s refers dims h =
      let (new, remembered, strict, below) = remember_shortcut_total d scs e s refers.0 h in
      let (t, ends, stored) =
        store_metrics_total d scs es
          (record {
            metrics = add_metrics s.metrics e;
            new_proto_edges =
                s.new_proto_edges
                ++ (record { src_idx = e.src_idx; dst_idx = e.dst_idx; idx = 0; id = e.id }) ∷ [];
            new_sc_edges = new;
            edge_idx = s.edge_idx + 1;
          })
          refers.1 dims.1
          (record {
            strict = strict;
            below = below;
            count = omega (
              arith,
              length-append s.new_proto_edges
                  (record { src_idx = e.src_idx; dst_idx = e.dst_idx; idx = 0; id = e.id } ∷ []),
              h.count,
            );
            dims = All-append _ s.metrics _ h.dims (length-map e.metrics corrected ∙ dims.0, tt);
          }) in
      (t, rw remembered ends, stored)
