-- ===== src/Rust/Numerals/RoundTrip.antt =====
-- A displayed number is a word and is read back.
use osmgraphing.Prelude.{
  ℕ, zero, suc, ◌+◌, ◌*◌, ◌/◌, ◌%◌, ◌≤◌, ◌<◌, ◌≡◌, ◌≢◌, ◌∙◌, inl, inr, refl, ap, false, some, List,
  [], ◌∷◌, ◌++◌, All, All-append, arith, ltb, ◌==◌, Bool-cases, List-cases,
}
use osmgraphing.Prelude.Int.{ℤ, pos, negsuc}
use osmgraphing.Network.Street.Text.{is_whitespace}
use osmgraphing.Rust.Numerals.Digits.{
  AreDigits, digits, number_behind, parse_digits-digits, parse_unsigned-digits,
}
use osmgraphing.Rust.Words.{IsWord, IsPlain}
use osmgraphing.Rust.Numerals.{
  max_usize, max_i64, parse_usize, parse_unsigned, parse_i64, decimal, display_usize, display_i64,
  positive, negative,
}

number_behind-append :
    (value : ℕ) (ds : List ℕ) (d : ℕ)
    → number_behind value (ds ++ d ∷ []) ≡ number_behind value ds * 10 + d
number_behind-append value [] d = refl
number_behind-append value (x ∷ ds) d = number_behind-append (value * 10 + x) ds d

decimal-AreDigits : (fuel n : ℕ) → n ≤ fuel → AreDigits (decimal fuel n)
unfolding decimal
decimal-AreDigits zero n h = (omega arith, tt)
decimal-AreDigits (suc fuel) n h = elim (Bool-cases (ltb n 10)) [
  | inl small ↦ rw small (let e : n < 10 = ground arith in (e, tt))
  | inr large ↦ rw large (
      let e : 10 ≤ n = ground arith in
      All-append (λ d. d < 10) (decimal fuel (n / 10)) (n % 10 ∷ [])
        (decimal-AreDigits fuel (n / 10) (omega arith)) (omega arith, tt))
]

number_behind-decimal : (fuel n : ℕ) → n ≤ fuel → number_behind 0 (decimal fuel n) ≡ n
unfolding decimal
number_behind-decimal zero n h = omega arith
number_behind-decimal (suc fuel) n h = elim (Bool-cases (ltb n 10)) [
  | inl small ↦ rw small (omega arith)
  | inr large ↦ rw large (
      let e : 10 ≤ n = ground arith in
      let ih = number_behind-decimal fuel (n / 10) (omega arith) in
      omega (arith, number_behind-append 0 (decimal fuel (n / 10)) (n % 10), ih))
]

append-ne-nil : (ds : List ℕ) (d : ℕ) → ds ++ d ∷ [] ≢ []
append-ne-nil [] d h = cc
append-ne-nil (x ∷ ds) d h = cc

decimal-ne-nil : (fuel n : ℕ) → decimal fuel n ≢ []
unfolding decimal
decimal-ne-nil zero n = λ h. cc
decimal-ne-nil (suc fuel) n = elim (Bool-cases (ltb n 10)) [
  | inl small ↦ rw small (λ h. cc)
  | inr large ↦ rw large (append-ne-nil (decimal fuel (n / 10)) (n % 10))
]

-- The digits of a number: a first one, and those behind it.
pub decimal_cases :
    (n : ℕ)
    → (d : ℕ) × (ds : List ℕ) × (decimal n n ≡ d ∷ ds)
      × AreDigits (d ∷ ds)
      × (number_behind 0 (d ∷ ds) ≡ n)
decimal_cases n = elim (List-cases (decimal n n)) [
  | inl e ↦ absurd (decimal-ne-nil n n e)
  | inr (d, ds, e) ↦ (
    d,
    ds,
    e,
    rw e at (decimal-AreDigits n n (omega arith)),
    rw e at (number_behind-decimal n n (omega arith)),
  )
]

pub parse_usize-display : (n : ℕ) → n ≤ max_usize → parse_usize (display_usize n) ≡ some n
unfolding display_usize parse_usize parse_unsigned
parse_usize-display n h =
    let (d, ds, e, are_digits, value) = decimal_cases n in
    rw e (parse_unsigned-digits max_usize d ds are_digits (rw value h) ∙ ap some value)

parse_i64-digits :
    (d : ℕ) (ds : List ℕ)
    → AreDigits (d ∷ ds)
    → number_behind 0 (d ∷ ds) ≤ max_i64
    → parse_i64 (digits (d ∷ ds)) ≡ some (pos (number_behind 0 (d ∷ ds)))
unfolding parse_i64
parse_i64-digits d [] decimal low =
    let digit = decimal.0 in
    let no_plus : (d + b'0' == b'+') ≡ false = ground (arith, digit) in
    let no_minus : (d + b'0' == b'-') ≡ false = ground (arith, digit) in
    rw (no_plus, no_minus) (ap positive (parse_digits-digits max_i64 0 (d ∷ []) decimal low))
parse_i64-digits d (x ∷ ds) decimal low =
    let digit = decimal.0 in
    let no_plus : (d + b'0' == b'+') ≡ false = ground (arith, digit) in
    let no_minus : (d + b'0' == b'-') ≡ false = ground (arith, digit) in
    rw (no_plus, no_minus) (ap positive (parse_digits-digits max_i64 0 (d ∷ x ∷ ds) decimal low))

parse_i64-minus :
    (d : ℕ) (ds : List ℕ)
    → AreDigits (d ∷ ds)
    → number_behind 0 (d ∷ ds) ≤ max_i64 + 1
    → parse_i64 (b'-' ∷ digits (d ∷ ds)) ≡ negative (some (number_behind 0 (d ∷ ds)))
unfolding parse_i64
parse_i64-minus d ds decimal low =
    ap negative (parse_digits-digits (max_i64 + 1) 0 (d ∷ ds) decimal low)

-- A signed number of 64 bits.
abbrev pub IsI64 : ℤ → Type 0
IsI64 (pos n) = n ≤ max_i64
IsI64 (negsuc n) = n ≤ max_i64

pub parse_i64-display : (i : ℤ) → IsI64 i → parse_i64 (display_i64 i) ≡ some i
unfolding display_i64 display_usize
parse_i64-display (pos n) h =
    let (d, ds, e, are_digits, value) = decimal_cases n in
    rw e (parse_i64-digits d ds are_digits (rw value h) ∙ ap (λ n. some (pos n)) value)
parse_i64-display (negsuc n) h =
    let (d, ds, e, are_digits, value) = decimal_cases (suc n) in
    rw e
      (parse_i64-minus d ds are_digits (rw value (omega arith)) ∙ ap (λ n. negative (some n)) value)

digits-AreWord : (ds : List ℕ) → AreDigits ds → All (λ c. is_whitespace c ≡ false) (digits ds)
unfolding is_whitespace
digits-AreWord [] h = tt
digits-AreWord (d ∷ ds) h = let digit = h.0 in (ground (arith, digit), digits-AreWord ds h.1)

pub display_usize-IsWord : (n : ℕ) → IsWord (display_usize n)
unfolding display_usize
display_usize-IsWord n =
    let (d, ds, e, are_digits, value) = decimal_cases n in
    rw e ((λ h. cc), digits-AreWord (d ∷ ds) are_digits)

pub display_i64-IsWord : (i : ℤ) → IsWord (display_i64 i)
unfolding display_i64 is_whitespace
display_i64-IsWord (pos n) = display_usize-IsWord n
display_i64-IsWord (negsuc n) = ((λ h. cc), (refl, (display_usize-IsWord (suc n)).1))

pub display_usize-IsPlain : (n : ℕ) → IsPlain (display_usize n)
unfolding display_usize
display_usize-IsPlain n =
    let (d, ds, e, are_digits, value) = decimal_cases n in
    rw e (let digit = are_digits.0 in ground (arith, digit))

pub display_i64-IsPlain : (i : ℤ) → IsPlain (display_i64 i)
unfolding display_i64
display_i64-IsPlain (pos n) = display_usize-IsPlain n
display_i64-IsPlain (negsuc n) = refl
