-- ===== src/Network/Street/Maxspeed.antt =====
-- defaults.rs, `parse_maxspeed`: the values of the OSM-tag `maxspeed`, in km/h.
pub mod Bounds
pub mod Digits
use Prim.Native.String.{String}
use osmgraphing.Prelude.{
  ℕ, ◌+◌, ◌-◌, ◌*◌, Option, none, some, List, [], ◌∷◌, ◌&&◌, if◌then◌else◌, ltb, leb, ◌==◌,
}
use osmgraphing.Rust.Numerals.{parse_unsigned}
use osmgraphing.Network.Street.{StreetCategory, lane_count, maxspeed}
use osmgraphing.Network.Street.Text.{Text, one_of, normal}

-- `str::parse::<u16>`
unfoldable pub parse_u16 : Text → Option ℕ
unfolding parse_unsigned
parse_u16 = parse_unsigned 65535

-- defaults::speed::MIN_KMH
abbrev pub min_kmh : ℕ
min_kmh = 5

abbrev pub max : ℕ → ℕ → ℕ
max a b = if ltb b a then a else b

abbrev pub as_100 : List String
as_100 =
    "100, 70" ∷ "100; 50" ∷ "100;70;50" ∷ "100;70" ∷ "100;80" ∷ "100|70" ∷ "50; 100" ∷ "50;100"
    ∷ "60 mph" ∷ []

abbrev pub as_80 : List String
as_80 = "50 mph" ∷ "60;80" ∷ "80;60" ∷ []

abbrev pub as_70 : List String
as_70 = "70; 50" ∷ "50;70" ∷ "50; 70" ∷ "40 mph" ∷ []

abbrev pub as_60 : List String
as_60 = "60;50" ∷ []

abbrev pub as_50 : List String
as_50 =
    "20; 50" ∷ "30 mph" ∷ "30,50" ∷ "30; 50" ∷ "30;50" ∷ "50; 30" ∷ "50;30" ∷ "50b" ∷ "5ß"
    ∷ "de:urban" ∷ "maxspeed=50" ∷ []

abbrev pub as_30 : List String
as_30 =
    "20 mph" ∷ "30 @ (mo-fr 06:00-18:00)" ∷ "30 kph" ∷ "30;10" ∷ "30; 40" ∷ "3ß"
    ∷ "conditional=30 @ (mo-fr 06:00-22:00)" ∷ "de:zone:30" ∷ "de:zone30" ∷ "zone:maxspeed=de:30"
    ∷ []

abbrev pub as_walk : List String
as_walk =
    "10 mph" ∷ "10#" ∷ "1ß" ∷ "3 mph" ∷ "4-6" ∷ "4-7" ∷ "5 mph" ∷ "6 km/h" ∷ "6,5" ∷ "7-10"
    ∷ "de:living_street" ∷ "de:walk" ∷ "schrittgeschwindigkeit" ∷ "walk" ∷ []

-- The arms for texts that are no number. The values known to mean the default and all other ones
-- give the default.
unfoldable pub maxspeed_of_text : StreetCategory → Text → ℕ
unfolding maxspeed one_of
maxspeed_of_text c s =
    if one_of s ("de:motorway" ∷ [])
    then maxspeed StreetCategory.motorway
    else if one_of s as_100
    then 100
    else if one_of s as_80
    then 80
    else if one_of s as_70
    then 70
    else if one_of s as_60
    then 60
    else if one_of s as_50
    then 50
    else if one_of s as_30
    then 30
    else if one_of s ("15 mph" ∷ [])
    then 25
    else if one_of s ("2ß" ∷ [])
    then 20
    else if one_of s ("de:bicycle_road" ∷ [])
    then maxspeed StreetCategory.cycleway
    else if one_of s as_walk
    then maxspeed StreetCategory.living_street
    else maxspeed c

-- The tag's value, if there is one.
unfoldable pub parse_maxspeed : StreetCategory → Option Text → ℕ
unfolding parse_u16 maxspeed_of_text normal maxspeed
parse_maxspeed c none = maxspeed c
parse_maxspeed c (some snippet) = elim (parse_u16 snippet) [
  | some value ↦ max min_kmh value
  | none ↦ maxspeed_of_text c (normal snippet)
]

-- The tag `lanes` is not read.
unfoldable pub parse_lane_count : StreetCategory → ℕ
unfolding lane_count
parse_lane_count c = lane_count c
