-- ===== src/Network/Street/Maxspeed/Digits.antt =====
-- A number written in decimal digits is read as this number.
use osmgraphing.Prelude.{ℕ, ◌<◌, ◌≤◌, ◌≡◌, refl, some, List, ◌∷◌, All}
use osmgraphing.Network.Street.{StreetCategory}
use osmgraphing.Rust.Numerals.Digits.{digits, number_behind, parse_unsigned-digits}
use osmgraphing.Network.Street.Maxspeed.{parse_u16, max, min_kmh, parse_maxspeed}

-- If the tag `maxspeed` is a non-empty text of decimal digits that stand for a number up to 65535,
-- then `parse_maxspeed` gives this number or 5, whichever is greater, for every street-type.
pub parse_maxspeed-digits :
    (c : StreetCategory) (d : ℕ) (ds : List ℕ)
    → All (λ d. d < 10) (d ∷ ds)
    → number_behind 0 (d ∷ ds) ≤ 65535
    → parse_maxspeed c (some (digits (d ∷ ds))) ≡ max min_kmh (number_behind 0 (d ∷ ds))
unfolding parse_maxspeed parse_u16
parse_maxspeed-digits c d ds decimal low = rw (parse_unsigned-digits 65535 d ds decimal low) refl
