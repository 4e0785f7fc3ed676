-- ===== src/Building/Nodes/Ids.antt =====
-- The ids that `EdgeBuilder` keeps are those of the end-nodes of its edges.
use osmgraphing.Prelude.{
  ℕ, zero, suc, ◌-◌, ◌≡◌, ◌↔◌, ◌⊎◌, inl, inr, true, List, [], ◌∷◌, ◌++◌, In, arith, Bool-cases,
  take, drop, length, ltb, Ordering,
}
use osmgraphing.Prelude.Int.{ℤ, compare_ℤ, ◌≤ℤ◌, eq_of_compare_ℤ}
use osmgraphing.Rust.Sort.{
  sort_by, dedup_by, In-sort_by, In-dedup_by, SortedBy, sort_by-SortedBy, dedup_by-SortedBy,
}
use osmgraphing.Building.Nodes.{eq_ℤ, contains, push_unseen, insert_ids}

pub In-append : {A : Type 0} (a : A) (xs ys : List A) → In a (xs ++ ys) ↔ (In a xs ⊎ In a ys)
In-append a [] ys = ground arith
In-append a (x ∷ xs) ys = ground (arith, In-append a xs ys)

In-take : {A : Type 0} (n : ℕ) (xs : List A) (a : A) → In a (take n xs) → In a xs
In-take zero xs a m = absurd m
In-take (suc n) [] a m = m
In-take (suc n) (x ∷ xs) a (inl e) = inl e
In-take (suc n) (x ∷ xs) a (inr m) = inr (In-take n xs a m)

In-drop : {A : Type 0} (n : ℕ) (xs : List A) (a : A) → In a (drop n xs) → In a xs
In-drop zero xs a m = m
In-drop (suc n) [] a m = m
In-drop (suc n) (x ∷ xs) a m = inr (In-drop n xs a m)

contains→In : (xs : List ℤ) (id : ℤ) → contains xs id ≡ true → In id xs
unfolding contains
contains→In [] id h = cc
contains→In (x ∷ xs) id h = ground (arith, eq_of_compare_ℤ x id, contains→In xs id)

-- Whether the id is pushed or was seen among the last two, the set grows by it alone.
In-push_unseen :
    (n : ℕ) (ids : List ℤ) (new a : ℤ) → In a (push_unseen n ids new) ↔ (In a ids ⊎ (a ≡ new))
unfolding push_unseen
In-push_unseen n ids new a = elim (Bool-cases (contains (take 2 (drop (n - 2) ids)) new)) [
  | inl seen ↦
      let old =
        In-drop (n - 2) ids new (In-take 2 (drop (n - 2) ids) new (contains→In _ new seen)) in
      rw seen (λ m. inl m, λ m. elim m [ inl p ↦ p | inr e ↦ rw e old ])
  | inr fresh ↦ rw fresh (ground (arith, In-append a ids (new ∷ [])))
]

pub In-insert_ids :
    (ids : List ℤ) (src dst a : ℤ)
    → In a (insert_ids ids src dst) ↔ (In a ids ⊎ ((a ≡ src) ⊎ (a ≡ dst)))
unfolding insert_ids
In-insert_ids ids src dst a = elim (Bool-cases (ltb (length ids) 2)) [
  | inl few ↦ rw few (ground (arith, In-append a ids (src ∷ dst ∷ [])))
  | inr many ↦
      let n = length ids in
      rw many
        (ground (arith, In-push_unseen n (push_unseen n ids src) dst a, In-push_unseen n ids src a))
]

abbrev Lt : ℤ → ℤ → Type 0
Lt a b = compare_ℤ a b ≡ Ordering.lt

-- Sorting and removing repetitions gives the strict order that the searches need.
pub sorted_ids :
    (ids : List ℤ)
    → SortedBy (λ a b. compare_ℤ a b ≡ Ordering.lt) (dedup_by eq_ℤ (sort_by compare_ℤ ids))
      × ((a : ℤ) → In a (dedup_by eq_ℤ (sort_by compare_ℤ ids)) ↔ In a ids)
sorted_ids ids =
    let same = λ (a b : ℤ) (h : eq_ℤ a b ≡ true). eq_of_eq_ℤ a b h in
    (
      dedup_by-SortedBy eq_ℤ same ◌≤ℤ◌ Lt (λ a b r n. ground arith) (λ a b c r q. ground arith)
          (sort_by compare_ℤ ids)
          (sort_by-SortedBy compare_ℤ ◌≤ℤ◌ (λ a b n. ground arith) (λ a b g. ground arith)
            (λ a b c r q. omega arith) ids),
      λ a.
          let unique = In-dedup_by eq_ℤ same (sort_by compare_ℤ ids) a in
          let ordered = In-sort_by compare_ℤ a ids in
          (λ m. ordered.0 (unique.0 m), λ m. unique.1 (ordered.1 m)),
    )
  where
    eq_of_eq_ℤ : (a b : ℤ) → eq_ℤ a b ≡ true → a ≡ b
    eq_of_eq_ℤ a b h = ground (arith, eq_of_compare_ℤ a b)
