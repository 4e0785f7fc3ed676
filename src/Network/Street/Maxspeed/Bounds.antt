-- ===== src/Network/Street/Maxspeed/Bounds.antt =====
-- Every speed-limit that is read lies within the bounds.
use osmgraphing.Prelude.{
  ℕ, ◌+◌, ◌-◌, ◌*◌, ◌≤◌, ◌≡◌, refl, Bool, true, false, ◌&&◌, leb, if◌then◌else◌, Option, none, some,
  [], ◌∷◌, arith, inl, inr, Option-cases,
}
use osmgraphing.Rust.Numerals.{parse_digits}
use osmgraphing.Network.Street.{StreetCategory, maxspeed}
use osmgraphing.Network.Street.Laws.{defaults_bounds}
use osmgraphing.Network.Street.Text.{Text, one_of, normal}
use osmgraphing.Network.Street.Maxspeed.{
  as_100, as_80, as_70, as_60, as_50, as_30, as_walk, parse_u16, maxspeed_of_text, parse_maxspeed,
}

parse_digits_bound :
    (value : ℕ) (s : Text) (n : ℕ) → value ≤ 65535 → parse_digits 65535 value s ≡ some n → n ≤ 65535
unfolding parse_digits
parse_digits_bound value [] n low h = let q : value ≡ n = cc in omega (arith, q)
parse_digits_bound value (c ∷ s) n low h =
    ground (arith, parse_digits_bound (value * 10 + (c - b'0')) s n)

parse_u16_bound : (s : Text) (n : ℕ) → parse_u16 s ≡ some n → n ≤ 65535
unfolding parse_u16
parse_u16_bound [] n h = cc
parse_u16_bound (c ∷ []) n h = ground (arith, parse_digits_bound 0 (c ∷ []) n)
parse_u16_bound (c ∷ d ∷ s) n h =
    ground (arith, parse_digits_bound 0 (d ∷ s) n, parse_digits_bound 0 (c ∷ d ∷ s) n)

abbrev IsLimit : ℕ → Type 0
IsLimit n = (5 ≤ n) × (n ≤ 130)

if-IsLimit : (b : Bool) (m n : ℕ) → IsLimit m → IsLimit n → IsLimit (if b then m else n)
if-IsLimit true m n h k = h
if-IsLimit false m n h k = k

maxspeed-IsLimit : (c : StreetCategory) → IsLimit (maxspeed c)
maxspeed-IsLimit c = let (_, _, low, high) = defaults_bounds c in (low, high)

plain-IsLimit : (n : ℕ) → (leb 5 n && leb n 130) ≡ true → IsLimit n
plain-IsLimit n h = ground arith

maxspeed_of_text-IsLimit : (c : StreetCategory) (s : Text) → IsLimit (maxspeed_of_text c s)
unfolding maxspeed_of_text
maxspeed_of_text-IsLimit c s =
    if-IsLimit (one_of s ("de:motorway" ∷ [])) _ _ (maxspeed-IsLimit StreetCategory.motorway) (
      if-IsLimit (one_of s as_100) _ _ (plain-IsLimit 100 refl) (
        if-IsLimit (one_of s as_80) _ _ (plain-IsLimit 80 refl) (
          if-IsLimit (one_of s as_70) _ _ (plain-IsLimit 70 refl) (
            if-IsLimit (one_of s as_60) _ _ (plain-IsLimit 60 refl) (
              if-IsLimit (one_of s as_50) _ _ (plain-IsLimit 50 refl) (
                if-IsLimit (one_of s as_30) _ _ (plain-IsLimit 30 refl) (
                  if-IsLimit (one_of s ("15 mph" ∷ [])) _ _ (plain-IsLimit 25 refl) (
                    if-IsLimit (one_of s ("2ß" ∷ [])) _ _ (plain-IsLimit 20 refl) (
                      if-IsLimit (one_of s ("de:bicycle_road" ∷ [])) _ _
                        (maxspeed-IsLimit StreetCategory.cycleway)
                        (if-IsLimit (one_of s as_walk) _ _
                          (maxspeed-IsLimit StreetCategory.living_street)
                          (maxspeed-IsLimit c)))))))))))

-- Whatever the street-type and the tag `maxspeed`, present or not, `parse_maxspeed` gives at least
-- 5 and at most 65535 km/h.
pub parse_maxspeed_bounds :
    (c : StreetCategory) (tag : Option Text)
    → (5 ≤ parse_maxspeed c tag) × (parse_maxspeed c tag ≤ 65535)
unfolding parse_maxspeed
parse_maxspeed_bounds c none = let (_, _, low, high) = defaults_bounds c in (low, omega arith)
parse_maxspeed_bounds c (some snippet) = elim (Option-cases (parse_u16 snippet)) [
  | inl e ↦
      let (low, high) = maxspeed_of_text-IsLimit c (normal snippet) in
      rw (e, parse_maxspeed) (low, omega arith)
  | inr (n, e) ↦ let high = parse_u16_bound snippet n e in rw (e, parse_maxspeed) (ground arith)
]
