-- ===== src/Approximating.antt =====
-- approximating.rs: comparing floats up to the accuracy.
use osmgraphing.Prelude.{
  Bool, true, Option, some, List, [], ◌∷◌, Ordering, if◌then◌else◌, ◌&&◌, false, none,
}
use osmgraphing.Rust.Outcome.{Outcome, expect}
use osmgraphing.Rust.Float.{Float64, fle}

-- `==` on `Option<Ordering>`
abbrev same_cmp : Option Ordering → Option Ordering → Bool
same_cmp none none = true
same_cmp (some Ordering.lt) (some Ordering.lt) = true
same_cmp (some Ordering.eq) (some Ordering.eq) = true
same_cmp (some Ordering.gt) (some Ordering.gt) = true
same_cmp a b = false

abbrev all_same : Option Ordering → List (Option Ordering) → Bool
all_same first [] = true
all_same first (c ∷ cs) = same_cmp first c && all_same first cs

abbrev first_if_all_same : List (Option Ordering) → Option Ordering
first_if_all_same [] = none
first_if_all_same (c ∷ cs) = if all_same c cs then c else none

module _ {F : Type 0} ⦃f : Float64 F⦄ where
  -- `Approx<f64>::approx`
  unfoldable pub approx : F → F
  approx x = f.mul (f.round (f.div x f.f64_abs)) f.f64_abs

  -- `Approx(a) == Approx(b)`
  unfoldable pub approx_eq : F → F → Bool
  unfolding approx
  approx_eq a b = fle (f.abs (approx (f.sub a b))) f.f64_abs

  -- `Approx(a).partial_cmp(&Approx(b))`
  unfoldable pub approx_partial_cmp : F → F → Option Ordering
  unfolding approx_eq
  approx_partial_cmp a b = if approx_eq a b then some Ordering.eq else f.partial_cmp a b

  -- `Approx(a).cmp(&Approx(b))`
  unfoldable pub approx_cmp : F → F → Outcome Ordering
  unfolding approx_partial_cmp
  approx_cmp a b = expect (approx_partial_cmp a b)

  -- `Approx<&[T]>` and `Approx<&SmallVec<A>>`: the shorter one ends the comparison.
  unfoldable pub approx_eq_all : List F → List F → Bool
  unfolding approx_eq
  approx_eq_all [] bs = true
  approx_eq_all (a ∷ as') [] = true
  approx_eq_all (a ∷ as') (b ∷ bs) = approx_eq a b && approx_eq_all as' bs

  -- `Approx<&[T]>::le`: no pair of entries is greater.
  unfoldable pub approx_le_all : List F → List F → Bool
  unfolding approx_partial_cmp
  approx_le_all [] bs = true
  approx_le_all (a ∷ as') [] = true
  approx_le_all (a ∷ as') (b ∷ bs) = elim (approx_partial_cmp a b) [
    | some Ordering.gt ↦ false
    | _ ↦ approx_le_all as' bs
  ]

  -- `Approx<&[T]>::ge`: no pair of entries is less.
  unfoldable pub approx_ge_all : List F → List F → Bool
  unfolding approx_partial_cmp
  approx_ge_all [] bs = true
  approx_ge_all (a ∷ as') [] = true
  approx_ge_all (a ∷ as') (b ∷ bs) = elim (approx_partial_cmp a b) [
    | some Ordering.lt ↦ false
    | _ ↦ approx_ge_all as' bs
  ]

  -- The orders of the pairs of entries.
  abbrev pub approx_cmps : List F → List F → List (Option Ordering)
  approx_cmps [] bs = []
  approx_cmps (a ∷ as') [] = []
  approx_cmps (a ∷ as') (b ∷ bs) = approx_partial_cmp a b ∷ approx_cmps as' bs

  -- `Approx<&[T]>::partial_cmp`: the order of the first pair, if all pairs have it.
  unfoldable pub approx_partial_cmp_all : List F → List F → Option Ordering
  unfolding approx_partial_cmp
  approx_partial_cmp_all as' bs = first_if_all_same (approx_cmps as' bs)
