-- ===== src/Network/Street.antt =====
-- network/mod.rs and defaults.rs, `network`: the street-types, with their defaults by `match`.
-- A speed in km/h is its whole number (the source wraps it as `KilometersPerHour` of an `f64`).
pub mod Text
pub mod Tags
pub mod Laws
pub mod Maxspeed
use osmgraphing.Prelude.{ℕ, Bool, true, false, not}
use Prim.Native.String.{String}

pub data StreetCategory : Type 0 where
  motorway motorway_link trunk trunk_link primary primary_link secondary secondary_link tertiary :
      StreetCategory
  tertiary_link unclassified residential living_street service track road cycleway pedestrian path :
      StreetCategory

pub data VehicleCategory : Type 0 where
  car bicycle pedestrian : VehicleCategory

unfoldable pub lane_count : StreetCategory → ℕ
lane_count motorway = 3
lane_count motorway_link = 1
lane_count trunk = 2
lane_count trunk_link = 1
lane_count primary = 2
lane_count primary_link = 1
lane_count secondary = 1
lane_count secondary_link = 1
lane_count tertiary = 1
lane_count tertiary_link = 1
lane_count unclassified = 1
lane_count residential = 1
lane_count living_street = 1
lane_count service = 1
lane_count track = 1
lane_count road = 1
lane_count cycleway = 1
lane_count StreetCategory.pedestrian = 1
lane_count path = 1

unfoldable pub maxspeed : StreetCategory → ℕ
maxspeed motorway = 130
maxspeed motorway_link = 50
maxspeed trunk = 100
maxspeed trunk_link = 50
maxspeed primary = 100
maxspeed primary_link = 30
maxspeed secondary = 70
maxspeed secondary_link = 30
maxspeed tertiary = 70
maxspeed tertiary_link = 30
maxspeed unclassified = 50
maxspeed residential = 50
maxspeed living_street = 15
maxspeed service = 20
maxspeed track = 30
maxspeed road = 50
maxspeed cycleway = 25
maxspeed StreetCategory.pedestrian = 5
maxspeed path = 15

unfoldable pub is_for_vehicles : StreetCategory → Bool → Bool
is_for_vehicles motorway is_driver_picky = true
is_for_vehicles motorway_link is_driver_picky = true
is_for_vehicles trunk is_driver_picky = true
is_for_vehicles trunk_link is_driver_picky = true
is_for_vehicles primary is_driver_picky = true
is_for_vehicles primary_link is_driver_picky = true
is_for_vehicles secondary is_driver_picky = true
is_for_vehicles secondary_link is_driver_picky = true
is_for_vehicles tertiary is_driver_picky = true
is_for_vehicles tertiary_link is_driver_picky = true
is_for_vehicles unclassified is_driver_picky = true
is_for_vehicles residential is_driver_picky = true
is_for_vehicles living_street is_driver_picky = true
is_for_vehicles service is_driver_picky = false
is_for_vehicles track is_driver_picky = not is_driver_picky
is_for_vehicles road is_driver_picky = false
is_for_vehicles cycleway is_driver_picky = false
is_for_vehicles StreetCategory.pedestrian is_driver_picky = false
is_for_vehicles path is_driver_picky = false

unfoldable pub is_for_bicycles : StreetCategory → Bool → Bool
is_for_bicycles motorway is_driver_picky = false
is_for_bicycles motorway_link is_driver_picky = false
is_for_bicycles trunk is_driver_picky = false
is_for_bicycles trunk_link is_driver_picky = false
is_for_bicycles primary is_driver_picky = not is_driver_picky
is_for_bicycles primary_link is_driver_picky = not is_driver_picky
is_for_bicycles secondary is_driver_picky = not is_driver_picky
is_for_bicycles secondary_link is_driver_picky = not is_driver_picky
is_for_bicycles tertiary is_driver_picky = true
is_for_bicycles tertiary_link is_driver_picky = true
is_for_bicycles unclassified is_driver_picky = true
is_for_bicycles residential is_driver_picky = true
is_for_bicycles living_street is_driver_picky = true
is_for_bicycles service is_driver_picky = true
is_for_bicycles track is_driver_picky = not is_driver_picky
is_for_bicycles road is_driver_picky = false
is_for_bicycles cycleway is_driver_picky = true
is_for_bicycles StreetCategory.pedestrian is_driver_picky = not is_driver_picky
is_for_bicycles path is_driver_picky = not is_driver_picky

unfoldable pub is_for_pedestrians : StreetCategory → Bool → Bool
is_for_pedestrians motorway is_driver_picky = false
is_for_pedestrians motorway_link is_driver_picky = false
is_for_pedestrians trunk is_driver_picky = false
is_for_pedestrians trunk_link is_driver_picky = false
is_for_pedestrians primary is_driver_picky = false
is_for_pedestrians primary_link is_driver_picky = false
is_for_pedestrians secondary is_driver_picky = false
is_for_pedestrians secondary_link is_driver_picky = false
is_for_pedestrians tertiary is_driver_picky = false
is_for_pedestrians tertiary_link is_driver_picky = false
is_for_pedestrians unclassified is_driver_picky = false
is_for_pedestrians residential is_driver_picky = true
is_for_pedestrians living_street is_driver_picky = true
is_for_pedestrians service is_driver_picky = true
is_for_pedestrians track is_driver_picky = true
is_for_pedestrians road is_driver_picky = false
is_for_pedestrians cycleway is_driver_picky = false
is_for_pedestrians StreetCategory.pedestrian is_driver_picky = true
is_for_pedestrians path is_driver_picky = true

unfoldable pub is_for : StreetCategory → VehicleCategory → Bool → Bool
unfolding is_for_vehicles is_for_bicycles is_for_pedestrians
is_for c car is_driver_picky = is_for_vehicles c is_driver_picky
is_for c bicycle is_driver_picky = is_for_bicycles c is_driver_picky
is_for c VehicleCategory.pedestrian is_driver_picky = is_for_pedestrians c is_driver_picky

-- `Display`
unfoldable pub display : StreetCategory → String
display motorway = "motorway"
display motorway_link = "motorway_link"
display trunk = "trunk"
display trunk_link = "trunk_link"
display primary = "primary"
display primary_link = "primary_link"
display secondary = "secondary"
display secondary_link = "secondary_link"
display tertiary = "tertiary"
display tertiary_link = "tertiary_link"
display unclassified = "unclassified"
display residential = "residential"
display living_street = "living_street"
display service = "service"
display track = "track"
display road = "road"
display cycleway = "cycleway"
display StreetCategory.pedestrian = "pedestrian"
display path = "path"
