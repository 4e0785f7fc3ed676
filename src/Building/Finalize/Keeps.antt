-- ===== src/Building/Finalize/Keeps.antt =====
-- The stages behind the forward-arrays leave these alone.
use osmgraphing.Prelude.{
  ◌≡◌, sym, ap, inl, inr, true, false, Option, none, some, Bool-cases, subst, length, Bool,
  if◌then◌else◌, ◌==◌,
}
use osmgraphing.Rust.Outcome.{ok, ok_inj, returned, expect}
use osmgraphing.Rust.Float.{Float64}
use osmgraphing.Network.Graph.{Graph, NodeAccessor, nodes}
use osmgraphing.Building.Stages.{MetricsState, sort_backward}
use osmgraphing.Building.Shortcuts.{build_shortcuts}
use osmgraphing.Building.Checks.{build_edge_ids}
use osmgraphing.Building.Offsets.{Forward, build_forward, build_backward}
use osmgraphing.Building.Finalize.{build_arrays}
use osmgraphing.Building.Normalize.{normalize, normalize_metrics, normalize_all, means_of, any_zero}

expect-some : {A : Type 0} (o : Option A) (a : A) → expect o ≡ ok a → o ≡ some a
expect-some none a h = cc
expect-some (some b) a h = ap some (ok_inj h)

-- What the later stages leave of the forward-arrays.
pub record Keeps {F C : Type 0} (fwd : Forward) (n : NodeAccessor C) (g : Graph F C) : Type 0 where
  pub offsets : g.fwd_offsets ≡ fwd.fwd_offsets
  pub mapping : g.fwd_to_fwd_map ≡ fwd.fwd_to_fwd_map
  pub leads : g.fwd_dsts ≡ fwd.fwd_dsts
  pub nodes_of : nodes g ≡ n

module _ {F : Type 0} ⦃f : Float64 F⦄ {C : Type 0} where
  pub build_arrays-Keeps :
      (graph g : Graph F C) (s : MetricsState F)
      → build_arrays graph s ≡ ok g
      → (fwd : Forward) × (build_forward s.new_proto_edges ≡ some fwd) × Keeps fwd (nodes graph) g
  unfolding build_arrays nodes
  build_arrays-Keeps graph g s h =
      let (sc, h1, m1) =
        returned g (build_shortcuts s.new_sc_edges (length s.new_proto_edges)) _ h in
      let (fwd, h2, m2) = returned g (expect (build_forward s.new_proto_edges)) _ h1 in
      let (ids, h3, m3) = returned g (build_edge_ids fwd.edge_ids_to_idx_map) _ h2 in
      let (backward, h4, m4) = returned g (sort_backward (nodes graph) fwd.passed) _ h3 in
      let (bwd, h5, m5) = returned g (expect (build_backward backward)) _ h4 in
      let made = sym (ok_inj h5) in
      (
        fwd,
        expect-some (build_forward s.new_proto_edges) fwd m2,
        record {
          offsets = ap (λ (x : Graph F C). x.fwd_offsets) made;
          mapping = ap (λ (x : Graph F C). x.fwd_to_fwd_map) made;
          leads = ap (λ (x : Graph F C). x.fwd_dsts) made;
          nodes_of = ap nodes made;
        },
      )

  normalize_metrics-Keeps :
      (fwd : Forward) (n : NodeAccessor C) (g h : Graph F C)
      → normalize_metrics g ≡ ok h
      → Keeps fwd n g
      → Keeps fwd n h
  unfolding normalize_metrics nodes
  normalize_metrics-Keeps fwd n g h e k = elim (Bool-cases (length g.fwd_dsts == 0)) [
    | inl empty ↦ absurd (let q = rw empty at e in cc)
    | inr some_edges ↦
        elim (Bool-cases (any_zero (means_of g.cfg.dim (length g.fwd_dsts) g.metrics))) [
          | inl z ↦ absurd (let q = rw (some_edges, z) at e in cc)
          | inr fine ↦
              let q = rw (some_edges, fine) at e in
              let (metrics, made, all) = returned h (normalize_all g.metrics _) _ q in
              let keeps : Keeps fwd n (record g {
                metrics = metrics;
                means = some (means_of g.cfg.dim (length g.fwd_dsts) g.metrics);
              }) =
                record {
                  offsets = k.offsets;
                  mapping = k.mapping;
                  leads = k.leads;
                  nodes_of = k.nodes_of;
                } in
              subst (Keeps fwd n) (ok_inj made) keeps
        ]
  ]

  pub normalize-Keeps :
      (fwd : Forward) (n : NodeAccessor C) (g h : Graph F C)
      → normalize g ≡ ok h
      → Keeps fwd n g
      → Keeps fwd n h
  unfolding normalize
  normalize-Keeps fwd n g h e k = by_case g.cfg.are_normalized e
    where
      by_case : (b : Bool) → (if b then normalize_metrics g else ok g) ≡ ok h → Keeps fwd n h
      by_case false q = subst (Keeps fwd n) (ok_inj q) k
      by_case true q = normalize_metrics-Keeps fwd n g h q k
