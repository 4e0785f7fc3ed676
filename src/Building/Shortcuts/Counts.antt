-- ===== src/Building/Shortcuts/Counts.antt =====
-- Counting in a strictly ascending list of edge-indices.
use osmgraphing.Prelude.{
  ℕ, zero, suc, ◌+◌, ◌-◌, length-le_of_none, ◌<◌, ◌≤◌, ◌≡◌, refl, inl, inr, some, List, [], ◌∷◌,
  length, arith, All, All-imp, IsSorted, get_elem?, All-get_elem?, Option-cases,
}
use osmgraphing.Building.Offsets.Tail.{
  count_below, lt-count_below, count_below_mono, count_below-le-length,
}

abbrev pub IsStrict : List ℕ → Type 0
IsStrict [] = Unit
IsStrict (x ∷ xs) = All (λ y. x < y) xs × IsStrict xs

pub IsStrict-IsSorted : (xs : List ℕ) → IsStrict xs → IsSorted xs
IsStrict-IsSorted [] h = tt
IsStrict-IsSorted (x ∷ xs) h = (All-imp (λ y p. omega arith) xs h.0, IsStrict-IsSorted xs h.1)

pub lt_of_IsStrict :
    (xs : List ℕ) (p k k' : ℕ)
    → IsStrict xs
    → get_elem? xs p ≡ some k
    → get_elem? xs (suc p) ≡ some k'
    → k < k'
lt_of_IsStrict [] p k k' h e e' = cc
lt_of_IsStrict (x ∷ xs) zero k k' h e e' =
    let q : x ≡ k = cc in rw (← q) (All-get_elem? (λ y. x < y) xs 0 k' h.0 e')
lt_of_IsStrict (x ∷ xs) (suc p) k k' h e e' = lt_of_IsStrict xs p k k' h.1 e e'

-- At the position of its own count an edge is counted next, if it is there.
pub count_below_hit :
    (xs : List ℕ) (i : ℕ)
    → IsStrict xs
    → get_elem? xs (count_below i xs) ≡ some i
    → count_below (i + 1) xs ≡ count_below i xs + 1
count_below_hit xs i h e =
    let c = count_below i xs in
    let next = (lt-count_below (i + 1) xs c i (IsStrict-IsSorted xs h) e).1 (omega arith) in
    elim (Option-cases (get_elem? xs (suc c))) [
      | inl last ↦
          omega (arith, next, count_below-le-length (i + 1) xs, length-le_of_none xs (suc c) last)
      | inr (k', e') ↦
          let far = lt_of_IsStrict xs c i k' h e e' in
          let beyond : ¬ (suc c < count_below (i + 1) xs) = λ lt.
            omega
              (arith, (lt-count_below (i + 1) xs (suc c) k' (IsStrict-IsSorted xs h) e').0 lt) in
          omega (arith, beyond, next)
    ]

-- If another edge stands there, the count stays.
pub count_below_miss :
    (xs : List ℕ) (i k : ℕ)
    → IsStrict xs
    → get_elem? xs (count_below i xs) ≡ some k
    → ¬ (k ≡ i)
    → count_below (i + 1) xs ≡ count_below i xs
count_below_miss xs i k h e ne =
    let s = IsStrict-IsSorted xs h in
    let c = count_below i xs in
    let after : ¬ (k < i) = λ lt. omega (arith, (lt-count_below i xs c k s e).1 lt) in
    let stays : ¬ (c < count_below (i + 1) xs) =
      λ lt. omega (arith, (lt-count_below (i + 1) xs c k s e).0 lt, after, ne) in
    omega (arith, stays, count_below_mono i xs)

pub count_below_mono_le : (i d : ℕ) (xs : List ℕ) → count_below i xs ≤ count_below (i + d) xs
count_below_mono_le i zero xs = let e : i + 0 ≡ i = omega arith in rw e (omega arith)
count_below_mono_le i (suc d) xs =
    let e : i + suc d ≡ i + d + 1 = omega arith in
    rw e (omega (arith, count_below_mono_le i d xs, count_below_mono (i + d) xs))

-- A count that has reached the length stays there.
pub count_below_full :
    (i j : ℕ) (xs : List ℕ) → i ≤ j → count_below i xs ≡ length xs → count_below j xs ≡ length xs
count_below_full i j xs h e =
    let m : count_below i xs ≤ count_below j xs =
      (let q : i + (j - i) ≡ j = omega arith in rw q at (count_below_mono_le i (j - i) xs)) in
    omega (arith, m, count_below-le-length j xs)

-- Below a bound of all edges everything is counted.
pub count_below-length : (m : ℕ) (xs : List ℕ) → All (λ x. x < m) xs → count_below m xs ≡ length xs
unfolding count_below
count_below-length m [] h = refl
count_below-length m (x ∷ xs) h = ground (arith, count_below-length m xs h.1)
