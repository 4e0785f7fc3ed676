-- ===== src/Helpers.antt =====
-- helpers/mod.rs: vectors of metrics.
use osmgraphing.Prelude.{Bool, true, List, [], ◌∷◌, ◌&&◌, ◌≡◌, ◌≤◌, refl, ap, arith, length}
use osmgraphing.Rust.Float.{Float64, fle}

module _ {F : Type 0} ⦃f : Float64 F⦄ where
  -- `a.iter().zip(b)`, collected: as long as the shorter.
  unfoldable pub add : List F → List F → List F
  add [] bs = []
  add (a ∷ as') [] = []
  add (a ∷ as') (b ∷ bs) = f.add a b ∷ add as' bs

  -- In place: as long as the first.
  unfoldable pub add_assign : List F → List F → List F
  add_assign [] bs = []
  add_assign (a ∷ as') [] = a ∷ as'
  add_assign (a ∷ as') (b ∷ bs) = f.add a b ∷ add_assign as' bs

  unfoldable pub sub : List F → List F → List F
  sub [] bs = []
  sub (a ∷ as') [] = []
  sub (a ∷ as') (b ∷ bs) = f.sub a b ∷ sub as' bs

  unfoldable pub dot_from : F → List F → List F → F
  dot_from start [] bs = start
  dot_from start (a ∷ as') [] = start
  dot_from start (a ∷ as') (b ∷ bs) = dot_from (f.add start (f.mul a b)) as' bs

  unfoldable pub dot_product : List F → List F → F
  unfolding dot_from
  dot_product as' bs = dot_from f.zero as' bs

  le_from : Bool → List F → List F → Bool
  le_from start [] bs = start
  le_from start (a ∷ as') [] = start
  le_from start (a ∷ as') (b ∷ bs) = le_from (start && fle a b) as' bs

  unfoldable pub le : List F → List F → Bool
  unfolding le_from
  le as' bs = le_from true as' bs

  -- The two sums agree where the second vector is at least as long.
  pub add_assign-eq-add :
      (as' bs : List F) → length as' ≤ length bs → add_assign as' bs ≡ add as' bs
  unfolding add add_assign
  add_assign-eq-add [] bs h = refl
  add_assign-eq-add (a ∷ as') [] h = absurd (elim h [ ])
  add_assign-eq-add (a ∷ as') (b ∷ bs) h =
      ap (λ l. f.add a b ∷ l) (add_assign-eq-add as' bs (omega arith))

  pub length-add_assign : (as' bs : List F) → length (add_assign as' bs) ≡ length as'
  unfolding add_assign
  length-add_assign [] bs = refl
  length-add_assign (a ∷ as') [] = refl
  length-add_assign (a ∷ as') (b ∷ bs) = omega (arith, length-add_assign as' bs)
