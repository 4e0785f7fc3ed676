-- ===== src/Building/Finalize/Returns.antt =====
-- The checks and the last stages of `finalize` return.
use osmgraphing.Prelude.{
  ℕ, zero, suc, ◌+◌, ◌≤◌, ◌≡◌, refl, sym, ap, ◌∙◌, inl, inr, Bool, true, false, Option, none, some,
  List, [], ◌∷◌, All, arith, length, length-map, length-replicate, replicate, Bool-cases, subst,
  ◌==◌, ltb, if◌then◌else◌,
}
use osmgraphing.Prelude.Int.{ℤ}
use osmgraphing.Rust.Outcome.{
  ok, Returns, bind-Returns, metric_too_small, no_coordinates, multiple_edge_ids,
  duplicated_edge_id, unsorted_edge_ids, no_edges_to_normalize, zero_mean,
}
use osmgraphing.Rust.Float.{Float64}
use osmgraphing.Rust.Sort.{sort_by, dedup_by}
use osmgraphing.Helpers.{add}
use osmgraphing.Network.Graph.{EdgeIdx, Graph}
use osmgraphing.Building.Nodes.{check_coordinates}
use osmgraphing.Building.Checks.{
  any_too_small, check_metrics, check_edge_ids, build_edge_ids, same_id, by_id,
}
use osmgraphing.Building.Normalize.{
  sum_metrics, means_of, any_zero, normalized, normalize_edge, normalize_all, normalize_metrics,
  normalize,
}
use osmgraphing.Building.Finalize.Corrected.{index_total}

pub check_coordinates-Returns :
    {C : Type 0} (ids : List ℤ) (i : ℕ) (coords : List (Option C))
    → i + length coords ≤ length ids
    → Returns (check_coordinates ids i coords)
unfolding check_coordinates
check_coordinates-Returns ids i [] h = inl ([], refl)
check_coordinates-Returns ids i (none ∷ coords) h =
    let (id, read, _) = index_total ids i (omega arith) in inr (no_coordinates id, rw read refl)
check_coordinates-Returns ids i (some c ∷ coords) h =
    bind-Returns (check_coordinates ids (i + 1) coords) (λ rest. ok (c ∷ rest))
      (check_coordinates-Returns ids (i + 1) coords (omega arith)) (λ rest e. inl (c ∷ rest, refl))

check_edge_ids-Returns : (pairs : List (ℕ × EdgeIdx)) → Returns (check_edge_ids pairs)
unfolding check_edge_ids
check_edge_ids-Returns [] = inl (tt, refl)
check_edge_ids-Returns (prev ∷ []) = inl (tt, refl)
check_edge_ids-Returns (prev ∷ next ∷ rest) = elim (Bool-cases (prev.0 == next.0)) [
  | inl same ↦ inr (duplicated_edge_id prev.0, rw same refl)
  | inr other ↦ elim (Bool-cases (ltb next.0 prev.0)) [
    | inl below ↦ inr (unsorted_edge_ids prev.0 next.0, rw (other, below) refl)
    | inr above ↦ rw (other, above) (check_edge_ids-Returns (next ∷ rest))
  ]
]

pub build_edge_ids-Returns : (pairs : List (ℕ × EdgeIdx)) → Returns (build_edge_ids pairs)
unfolding build_edge_ids
build_edge_ids-Returns pairs =
    let sorted = dedup_by same_id (sort_by by_id pairs) in
    elim (Bool-cases (length pairs == 0)) [
      | inl empty ↦ inl (pairs, rw empty refl)
      | inr filled ↦ elim (Bool-cases (length sorted == length pairs)) [
        | inr fewer ↦ inr (multiple_edge_ids, rw (filled, fewer) refl)
        | inl all ↦
            rw (filled, all)
              (bind-Returns (check_edge_ids sorted) (λ _. ok sorted) (check_edge_ids-Returns sorted)
                (λ _ e. inl (sorted, refl)))
      ]
    ]

module _ {F : Type 0} ⦃f : Float64 F⦄ where
  pub check_metrics-Returns : (ms : List (List F)) → Returns (check_metrics ms)
  unfolding check_metrics
  check_metrics-Returns [] = inl (tt, refl)
  check_metrics-Returns (m ∷ ms) = elim (Bool-cases (any_too_small m)) [
    | inl small ↦ inr (metric_too_small, rw small refl)
    | inr fine ↦ rw fine (check_metrics-Returns ms)
  ]

  length-add : (d : ℕ) (as' bs : List F) → length as' ≡ d → length bs ≡ d → length (add as' bs) ≡ d
  unfolding add
  length-add d [] bs h k = h
  length-add d (a ∷ as') [] h k = k
  length-add zero (a ∷ as') (b ∷ bs) h k = absurd (omega (arith, h))
  length-add (suc d) (a ∷ as') (b ∷ bs) h k =
      ap suc (length-add d as' bs (omega (arith, h)) (omega (arith, k)))

  length-sum_metrics :
      (d : ℕ) (acc : List F) (ms : List (List F))
      → length acc ≡ d
      → All (λ m. length m ≡ d) ms
      → length (sum_metrics acc ms) ≡ d
  unfolding sum_metrics
  length-sum_metrics d acc [] h k = h
  length-sum_metrics d acc (m ∷ ms) h k =
      length-sum_metrics d (add acc m) ms (length-add d acc m h k.0) k.1

  normalize_edge-Returns :
      (ms means : List F) → length ms ≡ length means → Returns (normalize_edge ms means)
  unfolding normalize_edge
  normalize_edge-Returns [] means h = inl ([], refl)
  normalize_edge-Returns (m ∷ ms) [] h = absurd (omega (arith, h))
  normalize_edge-Returns (m ∷ ms) (mean ∷ means) h =
      bind-Returns (normalize_edge ms means) (λ rest. ok (normalized m mean ∷ rest))
        (normalize_edge-Returns ms means (omega (arith, h)))
        (λ rest e. inl (normalized m mean ∷ rest, refl))

  normalize_all-Returns :
      (ms : List (List F)) (means : List F)
      → All (λ m. length m ≡ length means) ms
      → Returns (normalize_all ms means)
  unfolding normalize_all
  normalize_all-Returns [] means h = inl ([], refl)
  normalize_all-Returns (m ∷ ms) means h =
      bind-Returns (normalize_edge m means) _ (normalize_edge-Returns m means h.0) (λ x e.
        bind-Returns (normalize_all ms means) (λ xs. ok (x ∷ xs))
          (normalize_all-Returns ms means h.1) (λ xs e'. inl (x ∷ xs, refl)))

  -- Metrics that are as many as the configuration says have a mean each.
  normalize_metrics-Returns :
      {C : Type 0} (g : Graph F C)
      → All (λ m. length m ≡ g.cfg.dim) g.metrics
      → Returns (normalize_metrics g)
  unfolding normalize_metrics means_of
  normalize_metrics-Returns g dims =
      let n = length g.fwd_dsts in
      let means = means_of g.cfg.dim n g.metrics in
      let size : length means ≡ g.cfg.dim =
        length-map (sum_metrics (replicate g.cfg.dim f.zero) g.metrics)
          (λ sum. f.div sum (f.of_usize n))
        ∙ length-sum_metrics g.cfg.dim (replicate g.cfg.dim f.zero) g.metrics
            (length-replicate g.cfg.dim f.zero) dims in
      elim (Bool-cases (n == 0)) [
        | inl empty ↦ inr (no_edges_to_normalize, rw empty refl)
        | inr filled ↦ elim (Bool-cases (any_zero means)) [
          | inl z ↦ inr (zero_mean, rw (filled, z) refl)
          | inr fine ↦
              rw (filled, fine)
                (bind-Returns (normalize_all g.metrics means) _
                  (normalize_all-Returns g.metrics means
                    (subst (λ j. All (λ m. length m ≡ j) g.metrics) (sym size) dims))
                  (λ x e. inl (_, refl)))
        ]
      ]

  pub normalize-Returns :
      {C : Type 0} (g : Graph F C)
      → All (λ m. length m ≡ g.cfg.dim) g.metrics
      → Returns (normalize g)
  unfolding normalize
  normalize-Returns g dims = by_case g.cfg.are_normalized
    where
      by_case : (b : Bool) → Returns (if b then normalize_metrics g else ok g)
      by_case true = normalize_metrics-Returns g dims
      by_case false = inl (g, refl)
