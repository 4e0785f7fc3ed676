-- ===== src/Rust/Numerals/Digits.antt =====
-- A number written in decimal digits is parsed as this number.
use osmgraphing.Prelude.{
  ℕ, ◌+◌, ◌-◌, ◌*◌, ◌<◌, ◌≤◌, ◌≡◌, refl, true, false, some, List, [], ◌∷◌, map, All, arith, leb,
  ltb, ◌==◌,
}
use osmgraphing.Network.Street.Text.{Text}
use osmgraphing.Rust.Numerals.{parse_digits, parse_unsigned}

abbrev pub digits : List ℕ → Text
digits = map (λ d. d + b'0')

-- The number that a list of digits stands for, behind the digits of `value`.
abbrev pub number_behind : ℕ → List ℕ → ℕ
number_behind value [] = value
number_behind value (d ∷ ds) = number_behind (value * 10 + d) ds

value-le-number_behind : (value : ℕ) (ds : List ℕ) → value ≤ number_behind value ds
value-le-number_behind value [] = omega arith
value-le-number_behind value (d ∷ ds) = omega (arith, value-le-number_behind (value * 10 + d) ds)

abbrev pub AreDigits : List ℕ → Type 0
AreDigits = All (λ d. d < 10)

pub parse_digits-digits :
    (bound value : ℕ) (ds : List ℕ)
    → AreDigits ds
    → number_behind value ds ≤ bound
    → parse_digits bound value (digits ds) ≡ some (number_behind value ds)
unfolding parse_digits
parse_digits-digits bound value [] decimal low = refl
parse_digits-digits bound value (d ∷ ds) decimal low =
    let at_least = value-le-number_behind (value * 10 + d) ds in
    let ih = parse_digits-digits bound (value * 10 + d) ds decimal.1 low in
    let digit = decimal.0 in
    let same : value * 10 + (d + b'0' - b'0') ≡ value * 10 + d = omega arith in
    let above : leb b'0' (d + b'0') ≡ true = ground (arith, digit) in
    let below : leb (d + b'0') b'9' ≡ true = ground (arith, digit) in
    let fits : ltb bound (value * 10 + d) ≡ false = ground (arith, at_least) in
    rw (same, above, below, fits) ih

pub parse_unsigned-digits :
    (bound d : ℕ) (ds : List ℕ)
    → AreDigits (d ∷ ds)
    → number_behind 0 (d ∷ ds) ≤ bound
    → parse_unsigned bound (digits (d ∷ ds)) ≡ some (number_behind 0 (d ∷ ds))
unfolding parse_unsigned
parse_unsigned-digits bound d [] decimal low =
    let digit = decimal.0 in
    let no_plus : (d + b'0' == b'+') ≡ false = ground (arith, digit) in
    rw no_plus (parse_digits-digits bound 0 (d ∷ []) decimal low)
parse_unsigned-digits bound d (x ∷ ds) decimal low =
    let digit = decimal.0 in
    let no_plus : (d + b'0' == b'+') ≡ false = ground (arith, digit) in
    rw no_plus (parse_digits-digits bound 0 (d ∷ x ∷ ds) decimal low)
