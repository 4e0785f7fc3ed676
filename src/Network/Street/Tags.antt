-- ===== src/Network/Street/Tags.antt =====
-- defaults.rs, `impl FromStr for StreetCategory` and `parse_oneway`: the values of the OSM-tags
-- `highway` and `oneway`. A text is the list of its code points.
use Prim.Native.String.{String}
use osmgraphing.Prelude.{Bool, true, false, Option, none, some, List, [], ◌∷◌, ◌++◌, if◌then◌else◌}
use osmgraphing.Network.Street.{StreetCategory}
use osmgraphing.Network.Street.Text.{Text, codes, one_of, normal}

-- `Result<StreetCategory, bool>`; `Err(true)` is an unknown value, `Err(false)` an ignored one.
pub data Parsed : Type 0 where
  parsed : StreetCategory → Parsed
  failed : Bool → Parsed

abbrev known_motorway : List String
known_motorway = "highway:motorway" ∷ []

abbrev known_motorway_link : List String
known_motorway_link = "highway:motorway_link" ∷ []

abbrev known_trunk : List String
known_trunk = "highway:trunk" ∷ []

abbrev known_trunk_link : List String
known_trunk_link = "highway:trunk_link" ∷ []

abbrev known_primary : List String
known_primary = "highway:primary" ∷ []

abbrev known_primary_link : List String
known_primary_link = "highway:primary_link" ∷ []

abbrev known_secondary : List String
known_secondary = "highway:secondary" ∷ []

abbrev known_secondary_link : List String
known_secondary_link = "highway:secondary_link" ∷ []

abbrev known_tertiary : List String
known_tertiary = "highway:tertiary" ∷ []

abbrev known_tertiary_link : List String
known_tertiary_link =
    "highway:tertiary_link" ∷ "highway:traffic_calming" ∷ "highway:unclassified_link" ∷ []

abbrev known_unclassified : List String
known_unclassified = "highway:give_way" ∷ "highway:unclassified" ∷ "highway:unclasified" ∷ []

abbrev known_residential : List String
known_residential =
    "highway:area:residential" ∷ "highway:asphalt" ∷ "highway:junction" ∷ "highway:mini_roundabout"
    ∷ "highway:residential" ∷ []

abbrev known_living_street : List String
known_living_street = "highway:living_street" ∷ []

abbrev known_service : List String
known_service =
    "highway:razed:service" ∷ "highway:service;yes" ∷ "highway:service" ∷ "highway:sevice"
    ∷ "highway:service2" ∷ "highway:swervice" ∷ []

abbrev known_track : List String
known_track =
    "highway:byway" ∷ "highway:historic" ∷ "highway:path;unclassified" ∷ "highway:tra#"
    ∷ "highway:track" ∷ "highway:track;path" ∷ "highway:trank"
    ∷ "highway:track; cycleway; cycleway; track; track" ∷ []

abbrev known_road : List String
known_road =
    "highway:4" ∷ "highway:bridge" ∷ "highway:fixme" ∷ "highway:parking_aisle" ∷ "highway:road"
    ∷ "highway:yes" ∷ []

abbrev known_cycleway : List String
known_cycleway = "highway:cycleway" ∷ "highway:bridleway" ∷ []

abbrev known_pedestrian : List String
known_pedestrian =
    "highway:access_ramp" ∷ "highway:access" ∷ "highway:alley" ∷ "highway:corridor"
    ∷ "highway:crossing" ∷ "highway:elevator" ∷ "highway:footpath" ∷ "highway:footway rad frei"
    ∷ "highway:footway;service" ∷ "highway:footway" ∷ "highway:fo" ∷ "highway:f" ∷ "highway:pa"
    ∷ "highway:pedestrian" ∷ "highway:private_footway" ∷ "highway:ramp" ∷ "highway:schoolyard"
    ∷ "highway:sidewalk" ∷ "highway:stairs" ∷ "highway:steps" ∷ "highway:trail" ∷ "highway:virtual"
    ∷ "highway:vitrual" ∷ "highway:yes;footway" ∷ []

abbrev known_path : List String
known_path =
    "highway:informal_path" ∷ "highway:ladder" ∷ "highway:path---" ∷ "highway:path;steps"
    ∷ "highway:path" ∷ "highway:path/cycleway" ∷ "highway:pathless" ∷ []

abbrev ignored : List String
ignored =
    "highway:85" ∷ "highway:abondoned" ∷ "highway:abandoned:highway" ∷ "highway:abandoned:path"
    ∷ "highway:abandoned:service" ∷ "highway:abandoned" ∷ "highway:bus_guideway"
    ∷ "highway:bus_stop" ∷ "highway:bus" ∷ "highway:busway" ∷ "highway:centre_line"
    ∷ "highway:climbing_access" ∷ "highway:common" ∷ "highway:under construction"
    ∷ "highway:construction" ∷ "highway:constuction" ∷ "highway:demolished" ∷ "highway:dismantled"
    ∷ "highway:disused:track" ∷ "highway:disused" ∷ "highway:duckboards"
    ∷ "highway:emergency_access_point" ∷ "highway:emergency_bay" ∷ "highway:escalator"
    ∷ "highway:escape" ∷ "highway:foot" ∷ "highway:fuel" ∷ "highway:in planung" ∷ "highway:island"
    ∷ "highway:layby" ∷ "highway:loading_place" ∷ "highway:lohwiese" ∷ "highway:never_built"
    ∷ "highway:nicht mehr in benutzung" ∷ "highway:no" ∷ "highway:none" ∷ "highway:p"
    ∷ "highway:passing_place" ∷ "highway:piste" ∷ "highway:place" ∷ "highway:planned"
    ∷ "highway:platform" ∷ "highway:private" ∷ "highway:project" ∷ "highway:projected"
    ∷ "highway:proposed" ∷ "highway:raceway" ∷ "highway:razed" ∷ "highway:removed"
    ∷ "highway:rest_area" ∷ "highway:ser" ∷ "highway:sere" ∷ "highway:services"
    ∷ "highway:stop_line" ∷ "highway:stop" ∷ "highway:street_lamp" ∷ "highway:tidal_path"
    ∷ "highway:traffic_island" ∷ "highway:traffic_signals" ∷ "highway:turning_circle"
    ∷ "highway:turning_loop" ∷ "highway:unused" ∷ "highway:via_ferrata" ∷ "highway:virtual_rail"
    ∷ []

-- The arms of the `match` in their order, on the trimmed text in lower case.
unfoldable pub from_normal : Text → Parsed
unfolding one_of
from_normal s =
    if one_of s known_motorway
    then parsed StreetCategory.motorway
    else if one_of s known_motorway_link
    then parsed StreetCategory.motorway_link
    else if one_of s known_trunk
    then parsed StreetCategory.trunk
    else if one_of s known_trunk_link
    then parsed StreetCategory.trunk_link
    else if one_of s known_primary
    then parsed StreetCategory.primary
    else if one_of s known_primary_link
    then parsed StreetCategory.primary_link
    else if one_of s known_secondary
    then parsed StreetCategory.secondary
    else if one_of s known_secondary_link
    then parsed StreetCategory.secondary_link
    else if one_of s known_tertiary
    then parsed StreetCategory.tertiary
    else if one_of s known_tertiary_link
    then parsed StreetCategory.tertiary_link
    else if one_of s known_unclassified
    then parsed StreetCategory.unclassified
    else if one_of s known_residential
    then parsed StreetCategory.residential
    else if one_of s known_living_street
    then parsed StreetCategory.living_street
    else if one_of s known_service
    then parsed StreetCategory.service
    else if one_of s known_track
    then parsed StreetCategory.track
    else if one_of s known_road
    then parsed StreetCategory.road
    else if one_of s known_cycleway
    then parsed StreetCategory.cycleway
    else if one_of s known_pedestrian
    then parsed StreetCategory.pedestrian
    else if one_of s known_path
    then parsed StreetCategory.path
    else if one_of s ignored
    then failed false
    else failed true

-- `StreetCategory::from_str`
unfoldable pub from_str : Text → Parsed
unfolding from_normal
from_str s = from_normal (normal s)

-- `StreetCategory::from`, on the value of the tag `highway`, if the way has one.
unfoldable pub from_way : Option Text → Option StreetCategory
unfolding from_str
from_way none = none
from_way (some value) = elim (from_str (codes "highway:" ++ value)) [
  | parsed c ↦ some c
  | failed _ ↦ none
]

-- `parse_oneway`: the values of `(is_oneway, is_reverse)`.
abbrev oneway_forward : List String
oneway_forward =
    "1" ∷ "left;through" ∷ "motor_vehicle" ∷ "recommended" ∷ "shelter" ∷ "use_sidepath"
    ∷ "yes + oneway:bicycle=no" ∷ "yes" ∷ []

abbrev oneway_backward : List String
oneway_backward = "´-1" ∷ "-1" ∷ "-1;no" ∷ []

abbrev oneway_no : List String
oneway_no =
    "alternating" ∷ "bicycle" ∷ "cycle_barrier" ∷ "fixme" ∷ "no" ∷ "reversible" ∷ "undefined"
    ∷ "unknown" ∷ "yes @ (2018 aug 0 - 2018 dec 21)" ∷ "yes;no" ∷ []

unfoldable pub oneway_of : Text → Bool × Bool
oneway_of s =
    if one_of s oneway_forward
    then (true, false)
    else if one_of s oneway_backward
    then (true, true)
    else if one_of s oneway_no
    then (false, false)
    else (false, false)

-- On the value of the tag `oneway`, if the way has one.
unfoldable pub parse_oneway : Option Text → Bool × Bool
unfolding oneway_of
parse_oneway none = (false, false)
parse_oneway (some value) = oneway_of (normal value)
