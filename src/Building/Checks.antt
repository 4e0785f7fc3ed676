-- ===== src/Building/Checks.antt =====
-- network/graph/building.rs, `finalize`: the check of the metrics, and the mapping from edge-ids.
use osmgraphing.Prelude.{
  ℕ, ◌<◌, ◌≡◌, inl, inr, Bool, true, false, not, List, [], ◌∷◌, length, if◌then◌else◌, ltb, ◌==◌,
  compare, arith, Bool-cases, Ordering, subst,
}
use osmgraphing.Rust.Outcome.{
  Outcome, ok, err, ◌>>=◌, returned, metric_too_small, multiple_edge_ids, duplicated_edge_id,
  unsorted_edge_ids,
}
use osmgraphing.Rust.Float.{Float64, flt}
use osmgraphing.Rust.Sort.{sort_by, dedup_by}
use osmgraphing.Network.Graph.{EdgeIdx}

module _ {F : Type 0} ⦃f : Float64 F⦄ where
  -- One edge's metrics.
  unfoldable pub any_too_small : List F → Bool
  any_too_small [] = false
  any_too_small (metric ∷ metrics) = if flt metric f.f64_abs then true else any_too_small metrics

  -- The loop over all metrics.
  unfoldable pub check_metrics : List (List F) → Outcome (Unit {0})
  unfolding any_too_small
  check_metrics [] = ok tt
  check_metrics (metrics ∷ rest) =
      if any_too_small metrics then err metric_too_small else check_metrics rest

abbrev pub same_id : ℕ × EdgeIdx → ℕ × EdgeIdx → Bool
same_id a b = a.0 == b.0

abbrev pub by_id : ℕ × EdgeIdx → ℕ × EdgeIdx → Ordering
by_id a b = compare a.0 b.0

-- `for i in 0..(len - 1)`: each id with the next one.
unfoldable pub check_edge_ids : List (ℕ × EdgeIdx) → Outcome (Unit {0})
check_edge_ids [] = ok tt
check_edge_ids (prev ∷ []) = ok tt
check_edge_ids (prev ∷ next ∷ rest) =
    let further = check_edge_ids (next ∷ rest) in
    if prev.0 == next.0
    then err (duplicated_edge_id prev.0)
    else if ltb next.0 prev.0
    then err (unsorted_edge_ids prev.0 next.0)
    else further

-- The stage on the mapping. Pairs with the same id are sorted in any order, but they are an error.
unfoldable pub build_edge_ids : List (ℕ × EdgeIdx) → Outcome (List (ℕ × EdgeIdx))
unfolding check_edge_ids
build_edge_ids pairs =
    let sorted = dedup_by same_id (sort_by by_id pairs) in
    if length pairs == 0
    then ok pairs
    else if not (length sorted == length pairs)
    then err multiple_edge_ids
    else (check_edge_ids sorted >>= λ _. ok sorted)

-- Each id is less than the next one.
abbrev pub AreAscending : List (ℕ × EdgeIdx) → Type 0
AreAscending [] = Unit
AreAscending (prev ∷ []) = Unit
AreAscending (prev ∷ next ∷ rest) = (prev.0 < next.0) × AreAscending (next ∷ rest)

check_edge_ids-AreAscending :
    (pairs : List (ℕ × EdgeIdx)) → check_edge_ids pairs ≡ ok tt → AreAscending pairs
unfolding check_edge_ids
check_edge_ids-AreAscending [] h = tt
check_edge_ids-AreAscending (prev ∷ []) h = tt
check_edge_ids-AreAscending (prev ∷ next ∷ rest) h = elim (Bool-cases (prev.0 == next.0)) [
  | inl equal ↦ absurd (let q : err (duplicated_edge_id prev.0) ≡ ok tt = rw equal at h in cc)
  | inr distinct ↦ elim (Bool-cases (ltb next.0 prev.0)) [
    | inl below ↦
        absurd
          (let q : err (unsorted_edge_ids prev.0 next.0) ≡ ok tt = rw (distinct, below) at h in cc)
    | inr above ↦
        (ground arith, check_edge_ids-AreAscending (next ∷ rest) (rw (distinct, above) at h))
  ]
]

-- Whatever the pairs of ids and edge-indices, if the stage that builds the mapping from edge-ids
-- succeeds, then each id in its result is less than the next one.
pub build_edge_ids-AreAscending :
    (pairs mapping : List (ℕ × EdgeIdx)) → build_edge_ids pairs ≡ ok mapping → AreAscending mapping
unfolding build_edge_ids
build_edge_ids-AreAscending [] mapping h = let q : [] ≡ mapping = cc in rw (← q) tt
build_edge_ids-AreAscending (pair ∷ pairs) mapping h =
    let sorted = dedup_by same_id (sort_by by_id (pair ∷ pairs)) in
    let nonempty : (length (pair ∷ pairs) == 0) ≡ false = ground arith in
    elim (Bool-cases (length sorted == length (pair ∷ pairs))) [
      | inl all ↦
          let k = rw (nonempty, all) at h in
          let (u, q, e) = returned mapping (check_edge_ids sorted) (λ _. ok sorted) k in
          let same : sorted ≡ mapping = cc in
          subst AreAscending same (check_edge_ids-AreAscending sorted e)
      | inr fewer ↦
          absurd (let q : err multiple_edge_ids ≡ ok mapping = rw (nonempty, fewer) at h in cc)
    ]
