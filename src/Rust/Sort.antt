-- ===== src/Rust/Sort.antt =====
-- `sort_by`, `sort_by_key`, `sort_unstable` and `dedup_by`. The stable sorts have one result, which
-- an insertion sort computes too; `sort_unstable` is used only where equal elements are the same.
use osmgraphing.Prelude.{
  suc, ◌≡◌, ◌≢◌, refl, ◌↔◌, ◌⊎◌, inl, inr, Bool, true, false, List, [], ◌∷◌, Ordering, arith, All,
  All-imp, In, length, Bool-cases, if◌then◌else◌,
}

module _ {A : Type 0} where
  unfoldable pub insert_by : (A → A → Ordering) → A → List A → List A
  insert_by cmp x [] = x ∷ []
  insert_by cmp x (y ∷ ys) =
      let further = y ∷ insert_by cmp x ys in
      elim (cmp x y) [ Ordering.gt ↦ further | _ ↦ x ∷ y ∷ ys ]

  unfoldable pub sort_by : (A → A → Ordering) → List A → List A
  unfolding insert_by
  sort_by cmp [] = []
  sort_by cmp (x ∷ xs) = insert_by cmp x (sort_by cmp xs)

  -- The elements kept behind `last`, each compared with the last one kept.
  unfoldable pub kept : (A → A → Bool) → A → List A → List A
  kept dup last [] = []
  kept dup last (e ∷ es) =
      let more = e ∷ kept dup e es in
      let fewer = kept dup last es in if dup last e then fewer else more

  unfoldable pub dedup_by : (A → A → Bool) → List A → List A
  dedup_by dup [] = []
  dedup_by dup (x ∷ xs) = x ∷ kept dup x xs

  abbrev pub SortedBy {κ} : (A → A → Type κ) → List A → Type κ
  SortedBy R [] = Unit
  SortedBy R (x ∷ xs) = All (R x) xs × SortedBy R xs

module _ {A : Type 0} (cmp : A → A → Ordering) where
  pub insert_by_cases :
      (x y : A) (ys : List A)
      → ((cmp x y ≡ Ordering.gt) × (insert_by cmp x (y ∷ ys) ≡ y ∷ insert_by cmp x ys))
        ⊎ ((cmp x y ≢ Ordering.gt) × (insert_by cmp x (y ∷ ys) ≡ x ∷ y ∷ ys))
  unfolding insert_by
  insert_by_cases x y ys = ground arith

  All-insert_by {κ} :
      (P : A → Type κ) (x : A) (ys : List A) → P x → All P ys → All P (insert_by cmp x ys)
  All-insert_by P x [] p h = unfold insert_by in (p, tt)
  All-insert_by P x (y ∷ ys) p h = elim (insert_by_cases x y ys) [
    | inl (_, e) ↦ rw e (h.0, All-insert_by P x ys p h.1)
    | inr (_, e) ↦ rw e (p, h)
  ]

  pub In-insert_by : (a x : A) (ys : List A) → In a (insert_by cmp x ys) ↔ ((a ≡ x) ⊎ In a ys)
  unfolding insert_by
  In-insert_by a x [] = (λ m. m, λ m. m)
  In-insert_by a x (y ∷ ys) = ground (arith, In-insert_by a x ys)

  pub In-sort_by : (a : A) (xs : List A) → In a (sort_by cmp xs) ↔ In a xs
  unfolding sort_by
  In-sort_by a [] = (λ m. m, λ m. m)
  In-sort_by a (x ∷ xs) = ground (arith, In-insert_by a x (sort_by cmp xs), In-sort_by a xs)

  length-insert_by : (x : A) (ys : List A) → length (insert_by cmp x ys) ≡ suc (length ys)
  unfolding insert_by
  length-insert_by x [] = refl
  length-insert_by x (y ∷ ys) = ground (arith, length-insert_by x ys)

  pub length-sort_by : (xs : List A) → length (sort_by cmp xs) ≡ length xs
  unfolding sort_by
  length-sort_by [] = refl
  length-sort_by (x ∷ xs) = ground (arith, length-insert_by x (sort_by cmp xs), length-sort_by xs)

  -- A relation that the comparison decides orders the result.
  module _ {κ} (R : A → A → Type κ) (below : (a b : A) → cmp a b ≢ Ordering.gt → R a b)
      (above : (a b : A) → cmp a b ≡ Ordering.gt → R b a)
      (trans : (a b c : A) → R a b → R b c → R a c) where
    insert_by-SortedBy : (x : A) (ys : List A) → SortedBy R ys → SortedBy R (insert_by cmp x ys)
    insert_by-SortedBy x [] h = unfold insert_by in (tt, tt)
    insert_by-SortedBy x (y ∷ ys) h = elim (insert_by_cases x y ys) [
      | inl (far, e) ↦
          rw e (All-insert_by (R y) x ys (above x y far) h.0, insert_by-SortedBy x ys h.1)
      | inr (here, e) ↦
          let r = below x y here in rw e ((r, All-imp (λ z q. trans x y z r q) ys h.0), h)
    ]

    pub sort_by-SortedBy : (xs : List A) → SortedBy R (sort_by cmp xs)
    unfolding sort_by
    sort_by-SortedBy [] = tt
    sort_by-SortedBy (x ∷ xs) = insert_by-SortedBy x (sort_by cmp xs) (sort_by-SortedBy xs)

-- `dedup` of a weakly sorted list is strictly sorted and holds the same elements.
module _ {A : Type 0} (dup : A → A → Bool) (same : (a b : A) → dup a b ≡ true → a ≡ b) where
  In-kept : (last : A) (es : List A) (a : A) → In a (last ∷ kept dup last es) ↔ In a (last ∷ es)
  unfolding kept
  In-kept last [] a = (λ m. m, λ m. m)
  In-kept last (e ∷ es) a = elim (Bool-cases (dup last e)) [
    | inl d ↦ let q : last ≡ e = same last e d in rw d (ground (arith, In-kept last es a))
    | inr n ↦ rw n (ground (arith, In-kept e es a))
  ]

  All-kept {κ} : (P : A → Type κ) (last : A) (es : List A) → All P es → All P (kept dup last es)
  unfolding kept
  All-kept P last [] h = tt
  All-kept P last (e ∷ es) h = elim (Bool-cases (dup last e)) [
    | inl d ↦ rw d (All-kept P last es h.1)
    | inr n ↦ rw n (h.0, All-kept P e es h.1)
  ]

  pub In-dedup_by : (es : List A) (a : A) → In a (dedup_by dup es) ↔ In a es
  unfolding dedup_by
  In-dedup_by [] a = (λ m. m, λ m. m)
  In-dedup_by (e ∷ es) a = In-kept e es a

  -- `S` is the strict relation that `R` gives for elements that are not equal.
  module _ {κ} (R S : A → A → Type κ) (strict : (a b : A) → R a b → dup a b ≡ false → S a b)
      (trans : (a b c : A) → S a b → R b c → S a c) where
    kept-SortedBy :
        (last : A) (es : List A) → SortedBy R (last ∷ es) → SortedBy S (last ∷ kept dup last es)
    unfolding kept
    kept-SortedBy last [] h = (tt, tt)
    kept-SortedBy last (e ∷ es) h = elim (Bool-cases (dup last e)) [
      | inl d ↦ rw d (kept-SortedBy last es (h.0.1, h.1.1))
      | inr n ↦
          let s = strict last e h.0.0 n in
          let rest = kept-SortedBy e es h.1 in
          rw n ((s, All-kept (S last) e es (All-imp (λ z q. trans last e z s q) es h.1.0)), rest)
    ]

    pub dedup_by-SortedBy : (es : List A) → SortedBy R es → SortedBy S (dedup_by dup es)
    unfolding dedup_by
    dedup_by-SortedBy [] h = tt
    dedup_by-SortedBy (e ∷ es) h = kept-SortedBy e es h
