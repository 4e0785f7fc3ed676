-- ===== src/Building/Shortcuts/Reading.antt =====
-- What `EdgeAccessor::sc_edges` answers from the offsets that the loop has built.
use osmgraphing.Prelude.{
  ℕ, suc, ◌+◌, ◌<◌, ◌≤◌, ◌≡◌, ap, ◌∙◌, none, some, List, arith, In, get_elem?, get_elem?-map,
  get_elem?_total, zero, lt-length_of_get_elem?, length-le_of_none, inl, inr, In-get_elem?,
  Option-cases,
}
use osmgraphing.Rust.Outcome.{ok}
use osmgraphing.Network.Graph.{EdgeIdx, EdgeAccessor, sc_edges_at}
use osmgraphing.Building.Offsets.Tail.{
  count_below, lt-count_below, count_below_mono, count_below-le-length,
}
use osmgraphing.Building.Shortcuts.{ScEdge}
use osmgraphing.Building.Shortcuts.Counts.{
  IsStrict, IsStrict-IsSorted, count_below_hit, count_below_miss, lt_of_IsStrict,
}
use osmgraphing.Building.Shortcuts.Loop.{keys, replaced}

-- The position of an edge in a strict list is the count of those below it.
position-eq-count :
    (xs : List ℕ) (p i : ℕ) → IsStrict xs → get_elem? xs p ≡ some i → count_below i xs ≡ p
position-eq-count xs zero i s e =
    let after : ¬ (0 < count_below i xs) =
      λ lt. omega (arith, (lt-count_below i xs 0 i (IsStrict-IsSorted xs s) e).0 lt) in
    omega (arith, after)
position-eq-count xs (suc q) i s e =
    let after : ¬ (suc q < count_below i xs) =
      λ lt. omega (arith, (lt-count_below i xs (suc q) i (IsStrict-IsSorted xs s) e).0 lt) in
    let (k, at_q) = get_elem?_total xs q (omega (arith, lt-length_of_get_elem? xs (suc q) i e)) in
    let before = lt_of_IsStrict xs q k i s at_q e in
    omega (arith, after, (lt-count_below i xs q k (IsStrict-IsSorted xs s) at_q).1 before)

-- An edge that is not listed adds nothing to the count.
count_below_absent :
    (xs : List ℕ) (i : ℕ) → IsStrict xs → ¬ In i xs → count_below (i + 1) xs ≡ count_below i xs
count_below_absent xs i s n = elim (Option-cases (get_elem? xs (count_below i xs))) [
  | inl out ↦ omega (
    arith,
    length-le_of_none xs (count_below i xs) out,
    count_below_mono i xs,
    count_below-le-length (i + 1) xs,
  )
  | inr (k, e) ↦
      count_below_miss xs i k s e
        (λ same. n (In-get_elem? xs (count_below i xs) i (e ∙ ap some same)))
]

module _ {F : Type 0} (a : EdgeAccessor F) (new : List ScEdge) (m : ℕ) where
  -- The accessor's shortcut-arrays are those of a finished loop.
  pub record HoldsShortcuts : Type 0 where
    pub strict : IsStrict (keys new)
    pub offsets : (j : ℕ) → j ≤ m → get_elem? a.sc_offsets j ≡ some (count_below j (keys new))
    pub edges : a.sc_edges ≡ replaced new

  -- If an accessor holds the offsets and the shortcuts of a strictly ascending list, then
  -- `sc_edges` returns for every listed edge below `m` the two edges listed with it.
  pub sc_edges_at_shortcut :
      (p : ℕ) (i : EdgeIdx) (pair : EdgeIdx × EdgeIdx)
      → HoldsShortcuts
      → i < m
      → get_elem? new p ≡ some (i, pair)
      → sc_edges_at a i ≡ ok (some pair)
  unfolding sc_edges_at
  sc_edges_at_shortcut p i pair h lt e =
      let key = get_elem?-map (λ (e : ScEdge). e.0) new p (i, pair) e in
      let here = position-eq-count (keys new) p i h.strict key in
      let next = count_below_hit (keys new) i h.strict (rw here key) in
      let value = get_elem?-map (λ (e : ScEdge). e.1) new p (i, pair) e in
      let at_edges : get_elem? a.sc_edges (count_below i (keys new)) ≡ some pair =
        rw (h.edges, here) value in
      let o₁ = h.offsets i (omega arith) in
      let o₂ = h.offsets (i + 1) (omega arith) in ground (arith, at_edges, o₁, o₂, next)

  -- If an accessor holds the offsets and the shortcuts of a strictly ascending list, then
  -- `sc_edges` returns nothing for an edge below `m` that is not listed.
  pub sc_edges_at_plain :
      (i : EdgeIdx) → HoldsShortcuts → i < m → ¬ In i (keys new) → sc_edges_at a i ≡ ok none
  unfolding sc_edges_at
  sc_edges_at_plain i h lt n =
      let o₁ = h.offsets i (omega arith) in
      let o₂ = h.offsets (i + 1) (omega arith) in
      ground (arith, o₁, o₂, count_below_absent (keys new) i h.strict n)
