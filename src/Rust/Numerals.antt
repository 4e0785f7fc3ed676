-- ===== src/Rust/Numerals.antt =====
-- `str::parse` for unsigned integers and for `i64`, and `Display` of `usize` and `i64`. Both have 64
-- bits.
pub mod Digits
pub mod RoundTrip
use osmgraphing.Prelude.{
  ℕ, zero, suc, ◌+◌, ◌-◌, ◌*◌, ◌/◌, ◌%◌, Option, none, some, List, [], ◌∷◌, ◌++◌, ◌&&◌, ◌||◌, map,
  if◌then◌else◌, ltb, leb, ◌==◌,
}
use osmgraphing.Prelude.Int.{ℤ, pos, negsuc}
use osmgraphing.Network.Street.Text.{Text}

abbrev pub max_usize : ℕ
max_usize = 18446744073709551615

abbrev pub max_i64 : ℕ
max_i64 = 9223372036854775807

-- The digits behind a number; each step fails on another character or above the bound.
unfoldable pub parse_digits : ℕ → ℕ → Text → Option ℕ
parse_digits bound value [] = some value
parse_digits bound value (c ∷ s) =
    let next = value * 10 + (c - b'0') in
    let rest = parse_digits bound next s in
    if leb b'0' c && leb c b'9' then (if ltb bound next then none else rest) else none

-- Digits, behind at most one plus.
unfoldable pub parse_unsigned : ℕ → Text → Option ℕ
unfolding parse_digits
parse_unsigned bound [] = none
parse_unsigned bound (c ∷ []) = if c == b'+' then none else parse_digits bound 0 (c ∷ [])
parse_unsigned bound (c ∷ d ∷ s) =
    if c == b'+' then parse_digits bound 0 (d ∷ s) else parse_digits bound 0 (c ∷ d ∷ s)

unfoldable pub parse_usize : Text → Option ℕ
unfolding parse_unsigned
parse_usize = parse_unsigned max_usize

abbrev pub positive : Option ℕ → Option ℤ
positive none = none
positive (some n) = some (pos n)

abbrev pub negated : ℕ → ℤ
negated zero = pos 0
negated (suc n) = negsuc n

abbrev pub negative : Option ℕ → Option ℤ
negative none = none
negative (some n) = some (negated n)

-- Digits, behind at most one sign. The least `i64` is one further from 0 than the greatest.
unfoldable pub parse_i64 : Text → Option ℤ
unfolding parse_digits
parse_i64 [] = none
parse_i64 (c ∷ []) =
    if c == b'+' || c == b'-' then none else positive (parse_digits max_i64 0 (c ∷ []))
parse_i64 (c ∷ d ∷ s) =
    if c == b'-'
    then negative (parse_digits (max_i64 + 1) 0 (d ∷ s))
    else if c == b'+'
    then positive (parse_digits max_i64 0 (d ∷ s))
    else positive (parse_digits max_i64 0 (c ∷ d ∷ s))

-- The decimal digits of a number, which is itself fuel enough.
unfoldable pub decimal : ℕ → ℕ → List ℕ
decimal zero n = n ∷ []
decimal (suc fuel) n =
    let front = decimal fuel (n / 10) in if ltb n 10 then n ∷ [] else front ++ n % 10 ∷ []

unfoldable pub display_usize : ℕ → Text
unfolding decimal
display_usize n = map (λ d. d + b'0') (decimal n n)

unfoldable pub display_i64 : ℤ → Text
unfolding display_usize
display_i64 (pos n) = display_usize n
display_i64 (negsuc n) = b'-' ∷ display_usize (suc n)
