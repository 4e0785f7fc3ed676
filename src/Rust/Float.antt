-- ===== src/Rust/Float.antt =====
-- `f64` as a type with the operations that the program uses. The program's literals
-- 0.0, f64::INFINITY and 0.000_001 are operations too, since the type is a parameter.
use osmgraphing.Prelude.{Bool, true, false, Option, some, Ordering, ℕ, ◌≡◌}
use osmgraphing.Network.Street.Text.{Text}
use osmgraphing.Rust.Words.{IsWord, IsPlain}

pub record Float64 (F : Type 0) : Type 0 where
  pub zero : F
  pub infinity : F
  -- defaults::accuracy::F64_ABS
  pub f64_abs : F
  pub of_usize : ℕ → F
  pub add : F → F → F
  pub sub : F → F → F
  pub mul : F → F → F
  pub div : F → F → F
  pub round : F → F
  pub abs : F → F
  -- `none` if one side is NaN
  pub partial_cmp : F → F → Option Ordering

module _ {F : Type 0} ⦃f : Float64 F⦄ where
  -- `a < b`
  abbrev pub flt : F → F → Bool
  flt a b = elim (f.partial_cmp a b) [ some Ordering.lt ↦ true | _ ↦ false ]

  -- `a <= b`
  abbrev pub fle : F → F → Bool
  fle a b = elim (f.partial_cmp a b) [
    | some Ordering.lt ↦ true
    | some Ordering.eq ↦ true
    | _ ↦ false
  ]

  -- `a == b`
  abbrev pub feq : F → F → Bool
  feq a b = elim (f.partial_cmp a b) [ some Ordering.eq ↦ true | _ ↦ false ]

-- `f64` as text: `str::parse` and `Display`.
pub record FloatText (F : Type 0) : Type 0 where
  pub parse_f64 : Text → Option F
  pub display_f64 : F → Text

-- The documented behaviour of these: a displayed value is a word of digits, signs, dots and letters,
-- which is parsed as this value.
pub record RoundTrips {F : Type 0} (t : FloatText F) : Type 0 where
  pub parse_f64-display : (x : F) → t.parse_f64 (t.display_f64 x) ≡ some x
  pub display_f64-IsWord : (x : F) → IsWord (t.display_f64 x)
  pub display_f64-IsPlain : (x : F) → IsPlain (t.display_f64 x)
