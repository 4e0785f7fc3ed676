-- ===== src/Rust/Search.antt =====
-- `slice::binary_search` and `binary_search_by_key`. On a sorted slice without equal elements
-- their documented result is determined: the element's position, or else the number of smaller
-- elements, where it could be inserted.
use osmgraphing.Prelude.{
  ℕ, zero, suc, ◌≡◌, refl, ◌⊎◌, inl, inr, some, List, [], ◌∷◌, Ordering, compare, map, get_elem?,
  arith, All, All-In, In, subst,
}

-- `Result<usize, usize>`
pub data Found : Type 0 where
  at : ℕ → Found
  missing : ℕ → Found

pub Found-cases : (r : Found) → ((i : ℕ) × (r ≡ at i)) ⊎ ((i : ℕ) × (r ≡ missing i))
Found-cases (at i) = inl (i, refl)
Found-cases (missing i) = inr (i, refl)

abbrev pub later : Found → Found
later (at i) = at (suc i)
later (missing i) = missing (suc i)

module _ {K : Type 0} where
  unfoldable pub binary_search : (K → K → Ordering) → List K → K → Found
  binary_search cmp [] k = missing 0
  binary_search cmp (x ∷ xs) k = elim (cmp x k) [
    | Ordering.lt ↦ later (binary_search cmp xs k)
    | Ordering.eq ↦ at 0
    | Ordering.gt ↦ missing 0
  ]

  -- A position that is found holds an equal element.
  pub binary_search_found :
      (cmp : K → K → Ordering)
      → ((a b : K) → cmp a b ≡ Ordering.eq → a ≡ b)
      → (xs : List K) (k : K) (i : ℕ) → binary_search cmp xs k ≡ at i
      → get_elem? xs i ≡ some k
  unfolding binary_search
  binary_search_found cmp eq_of [] k i h = cc
  binary_search_found cmp eq_of (x ∷ xs) k zero h = ground (arith, eq_of x k)
  binary_search_found cmp eq_of (x ∷ xs) k (suc i) h =
      ground (arith, binary_search_found cmp eq_of xs k i)

  -- The strict order in which the program keeps what it searches.
  abbrev pub IsAscending : (K → K → Ordering) → List K → Type 0
  IsAscending cmp [] = Unit
  IsAscending cmp (x ∷ xs) = All (λ y. cmp x y ≡ Ordering.lt) xs × IsAscending cmp xs

  -- An element that is there is found.
  pub binary_search_complete :
      (cmp : K → K → Ordering)
      → ((a : K) → cmp a a ≡ Ordering.eq)
      → (xs : List K) (k : K) → IsAscending cmp xs
      → In k xs
      → (i : ℕ) × (binary_search cmp xs k ≡ at i)
  unfolding binary_search
  binary_search_complete cmp same [] k s m = absurd m
  binary_search_complete cmp same (x ∷ xs) k s (inl e) = (
    0,
    let p : cmp x k ≡ Ordering.eq = subst (λ y. cmp y k ≡ Ordering.eq) e (same k) in
        rw (p, binary_search),
  )
  binary_search_complete cmp same (x ∷ xs) k s (inr m) =
      let (i, e) = binary_search_complete cmp same xs k s.1 m in
      let p : cmp x k ≡ Ordering.lt = All-In (λ y. cmp x y ≡ Ordering.lt) xs k s.0 m in
      (suc i, rw (p, binary_search) (rw e))

-- `binary_search_by_key(&id, |(id, _)| *id)`
module _ {V : Type 0} where
  unfoldable pub binary_search_by_key : List (ℕ × V) → ℕ → Found
  unfolding binary_search
  binary_search_by_key xs k = binary_search compare (map (λ e. e.0) xs) k
