-- ===== src/Network/Street/Laws.antt =====
-- What the street-types' defaults and tags promise.
use mathlib.Core.List.{map-append, reverse-append}
use osmgraphing.Prelude.{
  ℕ, ◌≤◌, ◌≡◌, refl, sym, ap, ◌∙◌, true, false, Option, none, some, List, [], ◌∷◌, ◌++◌, map,
  reverse, arith, inl, inr, Bool-cases,
}
use osmgraphing.Network.Street.{
  StreetCategory, VehicleCategory, lane_count, maxspeed, is_for, display,
}
use osmgraphing.Network.Street.Text.{Text, codes, to_lower, is_whitespace, trim_start, trim, normal}
use osmgraphing.Network.Street.Tags.{parsed, from_str, from_normal, oneway_of, parse_oneway}

map-reverse : (f : ℕ → ℕ) (xs : List ℕ) → reverse (map f xs) ≡ map f (reverse xs)
map-reverse f [] = refl
map-reverse f (x ∷ xs) =
    reverse-append (f x ∷ []) (map f xs)
    ∙ ap (λ l. l ++ f x ∷ []) (map-reverse f xs)
    ∙ sym (map-append f (reverse xs) (x ∷ []))
    ∙ ap (map f) (sym (reverse-append (x ∷ []) xs))

to_lower_idem : (c : ℕ) → to_lower (to_lower c) ≡ to_lower c
unfolding to_lower
to_lower_idem c = ground arith

-- No letter is white space, in either case.
is_whitespace-to_lower : (c : ℕ) → is_whitespace (to_lower c) ≡ is_whitespace c
unfolding is_whitespace to_lower
is_whitespace-to_lower c = ground arith

trim_start-lower : (s : Text) → trim_start (map to_lower s) ≡ map to_lower (trim_start s)
unfolding trim_start
trim_start-lower [] = refl
trim_start-lower (c ∷ s) = elim (Bool-cases (is_whitespace c)) [
  | inl w ↦ rw (is_whitespace-to_lower c, w) (trim_start-lower s)
  | inr n ↦ rw (is_whitespace-to_lower c, n) refl
]

map-lower_idem : (s : Text) → map to_lower (map to_lower s) ≡ map to_lower s
map-lower_idem [] = refl
map-lower_idem (c ∷ s) = cc (to_lower_idem c, map-lower_idem s)

normal-lower : (s : Text) → normal (map to_lower s) ≡ normal s
unfolding normal trim
normal-lower s =
    let first = trim_start-lower s in
    let second = trim_start-lower (reverse (trim_start s)) in
    rw
      (
        first,
        map-reverse to_lower (trim_start s),
        second,
        map-reverse to_lower (trim_start (reverse (trim_start s))),
      )
      (map-lower_idem (reverse (trim_start (reverse (trim_start s)))))

-- Parsing a tag gives the same result for the text and for the text with its ASCII letters in
-- lower case.
pub from_str-lower : (s : Text) → from_str (map to_lower s) ≡ from_str s
unfolding from_str
from_str-lower s = ap from_normal (normal-lower s)

-- For every street-type, the text `highway:` followed by its displayed name is parsed as this
-- street-type.
pub from_str-display :
    (c : StreetCategory) → from_str (codes "highway:" ++ codes (display c)) ≡ parsed c
unfolding from_str normal display
from_str-display StreetCategory.motorway = refl
from_str-display StreetCategory.motorway_link = refl
from_str-display StreetCategory.trunk = refl
from_str-display StreetCategory.trunk_link = refl
from_str-display StreetCategory.primary = refl
from_str-display StreetCategory.primary_link = refl
from_str-display StreetCategory.secondary = refl
from_str-display StreetCategory.secondary_link = refl
from_str-display StreetCategory.tertiary = refl
from_str-display StreetCategory.tertiary_link = refl
from_str-display StreetCategory.unclassified = refl
from_str-display StreetCategory.residential = refl
from_str-display StreetCategory.living_street = refl
from_str-display StreetCategory.service = refl
from_str-display StreetCategory.track = refl
from_str-display StreetCategory.road = refl
from_str-display StreetCategory.cycleway = refl
from_str-display StreetCategory.pedestrian = refl
from_str-display StreetCategory.path = refl

-- What a street-type allows a picky driver of a category it allows every driver of this category.
pub is_for-picky :
    (c : StreetCategory) (v : VehicleCategory) → is_for c v true ≡ true → is_for c v false ≡ true
unfolding is_for
is_for-picky c v h = ground arith

-- Every street-type has 1 to 3 lanes and a default speed-limit of 5 to 130 km/h.
pub defaults_bounds :
    (c : StreetCategory)
    → (1 ≤ lane_count c) × (lane_count c ≤ 3) × (5 ≤ maxspeed c) × (maxspeed c ≤ 130)
unfolding lane_count maxspeed
defaults_bounds c = ground arith

oneway_of_reverse : (s : Text) → (oneway_of s).1 ≡ true → (oneway_of s).0 ≡ true
unfolding oneway_of
oneway_of_reverse s h = ground arith

-- Whatever the tag's value, if `parse_oneway` says that the direction is reversed then it says
-- that the street is oneway.
pub parse_oneway_reverse :
    (value : Option Text) → (parse_oneway value).1 ≡ true → (parse_oneway value).0 ≡ true
unfolding parse_oneway
parse_oneway_reverse none h = h
parse_oneway_reverse (some value) h = ground (arith, oneway_of_reverse (normal value))
