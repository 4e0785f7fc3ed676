-- ===== src/Building/Dedup/Correction.antt =====
-- A corrected index leads to the edge that was kept in the place of the old one.
use osmgraphing.Prelude.{
  ℕ, zero, suc, ◌+◌, ◌<◌, ◌≤◌, ◌≡◌, refl, ◌⊎◌, inl, inr, some, Bool, true, List, [], ◌∷◌, arith,
  All, All-imp, get_elem?, Bool-cases,
}
use osmgraphing.Building.Dedup.{correct_index}
use osmgraphing.Rust.Sort.{kept}
use osmgraphing.Building.Dedup.Reference.{removed}

-- Removals beyond an index leave it alone.
correct_index_below : (rs : List ℕ) (x : ℕ) → All (λ r. x < r) rs → correct_index rs x ≡ x
unfolding correct_index
correct_index_below [] x h = refl
correct_index_below (r ∷ rs) x h = let ih = correct_index_below rs x h.1 in ground (arith, ih)

module _ {E : Type 0} (dup : E → E → Bool) where
  removed-ge : (last : E) (r : ℕ) (es : List E) → All (λ x. r ≤ x) (removed dup last r es)
  unfolding removed
  removed-ge last r [] = tt
  removed-ge last r (e ∷ es) = elim (Bool-cases (dup last e)) [
    | inl d ↦ rw d (omega arith, All-imp (λ x h. omega arith) _ (removed-ge last (r + 1) es))
    | inr n ↦ rw n (All-imp (λ x h. omega arith) _ (removed-ge e (r + 1) es))
  ]

  -- The edge itself, or the earlier edge of which it is a duplicate.
  abbrev pub Represents : E → E → Type 0
  Represents kept_edge e = (kept_edge ≡ e) ⊎ (dup kept_edge e ≡ true)

  -- The correction of a shortcut's index by the removed positions leads to an edge that was kept:
  -- the index of an edge before the removal, which is `i` behind the first one, becomes the
  -- position of the same edge or of an edge of which it is a duplicate.
  pub correct_index-Represents :
      (last : E) (b : ℕ) (es : List E) (i : ℕ) (e : E)
      → get_elem? es i ≡ some e
      → (q : ℕ) × (k : E) × (correct_index (removed dup last (b + 1) es) (b + 1 + i) ≡ b + q)
        × (get_elem? (last ∷ kept dup last es) q ≡ some k)
        × Represents k e
  unfolding correct_index removed kept
  correct_index-Represents last b [] i e h = cc
  correct_index-Represents last b (x ∷ es) zero e h =
      let same : x ≡ e = cc in
      let at_x : b + 1 + 0 ≡ b + 1 = omega arith in
      elim (Bool-cases (dup last x)) [
        | inl d ↦
            let later =
              correct_index_below (removed dup last (b + 1 + 1) es) (b + 1)
                (All-imp (λ y p. omega arith) _ (removed-ge last (b + 1 + 1) es)) in
            (0, last, rw (d, at_x) (ground (arith, later)), refl, inr (rw (← same) d))
        | inr n ↦
            let later =
              correct_index_below (removed dup x (b + 1 + 1) es) (b + 1)
                (All-imp (λ y p. omega arith) _ (removed-ge x (b + 1 + 1) es)) in
            (1, x, rw (n, at_x) later, rw n refl, inl same)
      ]
  correct_index-Represents last b (x ∷ es) (suc i) e h =
      let shift : b + 1 + suc i ≡ b + 1 + 1 + i = omega arith in
      elim (Bool-cases (dup last x)) [
        | inl d ↦
            let (q, k, at_q, at_k, rep) = correct_index-Represents last (b + 1) es i e h in
            (q, k, rw (d, shift) (ground (arith, at_q)), rw d at_k, rep)
        | inr n ↦
            let (q, k, at_q, at_k, rep) = correct_index-Represents x (b + 1) es i e h in
            (suc q, k, rw (n, shift) (omega (arith, at_q)), rw n at_k, rep)
      ]
