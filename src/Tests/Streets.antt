-- ===== src/Tests/Streets.antt =====
-- Tags and street-types.
use osmgraphing.Network.Street.Maxspeed.{parse_maxspeed}
use osmgraphing.Network.Street.Maxspeed.Bounds.{parse_maxspeed_bounds}
use osmgraphing.Network.Street.Maxspeed.Digits.{parse_maxspeed-digits}
use osmgraphing.Rust.Numerals.Digits.{digits}
use osmgraphing.Prelude.{[], ◌∷◌, arith, ◌≡◌, some, ◌≤◌, ◌++◌}
use osmgraphing.Network.Street.{StreetCategory, display}
use osmgraphing.Network.Street.Text.{codes}
use osmgraphing.Network.Street.Tags.{from_str, parsed}
use osmgraphing.Network.Street.Laws.{from_str-display}

from_str-display_example :
    from_str (codes "highway:" ++ codes (display StreetCategory.trunk))
    ≡ parsed StreetCategory.trunk
from_str-display_example = from_str-display StreetCategory.trunk

parse_maxspeed_bounds_example :
    (5 ≤ parse_maxspeed StreetCategory.track (some (codes "50 mph")))
    × (parse_maxspeed StreetCategory.track (some (codes "50 mph")) ≤ 65535)
parse_maxspeed_bounds_example = parse_maxspeed_bounds StreetCategory.track (some (codes "50 mph"))

parse_maxspeed-digits_example :
    parse_maxspeed StreetCategory.track (some (digits (1 ∷ 2 ∷ 0 ∷ []))) ≡ 120
parse_maxspeed-digits_example =
    parse_maxspeed-digits StreetCategory.track 1 (2 ∷ 0 ∷ [])
      (omega arith, (omega arith, (omega arith, tt))) (omega arith)
