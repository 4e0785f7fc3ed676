-- ===== src/Configs/Generating.antt =====
-- configs/parsing/generating/edges/metrics.rs: the units of generated metrics, their conversion and
-- their calculation.
use Prim.Native.String.{String}
use osmgraphing.Prelude.{Option, none, some, Bool, true, false, ◌&&◌, if◌then◌else◌}
use osmgraphing.Rust.Outcome.{Outcome, ok, err, not_convertible, not_calculable}
use osmgraphing.Configs.Kissunits.{Kissunits}

pub data UnitInfo : Type 0 where
  meters : UnitInfo
  kilometers : UnitInfo
  seconds : UnitInfo
  minutes : UnitInfo
  hours : UnitInfo
  kilometers_per_hour : UnitInfo
  lane_count : UnitInfo
  f64 : UnitInfo

pub data ProtoUnitInfo : Type 0 where
  meters : ProtoUnitInfo
  kilometers : ProtoUnitInfo
  seconds : ProtoUnitInfo
  minutes : ProtoUnitInfo
  hours : ProtoUnitInfo
  kilometers_per_hour : ProtoUnitInfo
  lane_count : ProtoUnitInfo
  f64 : ProtoUnitInfo

pub data RawUnitInfo : Type 0 where
  meters : RawUnitInfo
  kilometers : RawUnitInfo
  seconds : RawUnitInfo
  minutes : RawUnitInfo
  hours : RawUnitInfo
  kilometers_per_hour : RawUnitInfo
  lane_count : RawUnitInfo
  f64 : RawUnitInfo

unfoldable pub from_proto : ProtoUnitInfo → UnitInfo
from_proto ProtoUnitInfo.meters = UnitInfo.meters
from_proto ProtoUnitInfo.kilometers = UnitInfo.kilometers
from_proto ProtoUnitInfo.seconds = UnitInfo.seconds
from_proto ProtoUnitInfo.minutes = UnitInfo.minutes
from_proto ProtoUnitInfo.hours = UnitInfo.hours
from_proto ProtoUnitInfo.kilometers_per_hour = UnitInfo.kilometers_per_hour
from_proto ProtoUnitInfo.lane_count = UnitInfo.lane_count
from_proto ProtoUnitInfo.f64 = UnitInfo.f64

unfoldable pub from_raw : RawUnitInfo → ProtoUnitInfo
from_raw RawUnitInfo.meters = ProtoUnitInfo.meters
from_raw RawUnitInfo.kilometers = ProtoUnitInfo.kilometers
from_raw RawUnitInfo.seconds = ProtoUnitInfo.seconds
from_raw RawUnitInfo.minutes = ProtoUnitInfo.minutes
from_raw RawUnitInfo.hours = ProtoUnitInfo.hours
from_raw RawUnitInfo.kilometers_per_hour = ProtoUnitInfo.kilometers_per_hour
from_raw RawUnitInfo.lane_count = ProtoUnitInfo.lane_count
from_raw RawUnitInfo.f64 = ProtoUnitInfo.f64

-- The derived `Debug`.
unfoldable pub debug : UnitInfo → String
debug UnitInfo.meters = "Meters"
debug UnitInfo.kilometers = "Kilometers"
debug UnitInfo.seconds = "Seconds"
debug UnitInfo.minutes = "Minutes"
debug UnitInfo.hours = "Hours"
debug UnitInfo.kilometers_per_hour = "KilometersPerHour"
debug UnitInfo.lane_count = "LaneCount"
debug UnitInfo.f64 = "F64"

abbrev pub is_kilometers : UnitInfo → Bool
is_kilometers unit = elim unit [ UnitInfo.kilometers ↦ true | _ ↦ false ]

abbrev pub is_kilometers_per_hour : UnitInfo → Bool
is_kilometers_per_hour unit = elim unit [ UnitInfo.kilometers_per_hour ↦ true | _ ↦ false ]

abbrev pub is_hours : UnitInfo → Bool
is_hours unit = elim unit [ UnitInfo.hours ↦ true | _ ↦ false ]

module _ {F : Type 0} ⦃k : Kissunits F⦄ where
  -- The `match` on both units.
  unfoldable pub new_raw_value : UnitInfo → UnitInfo → F → Option F
  new_raw_value UnitInfo.meters to raw = elim to [
    | UnitInfo.meters ↦ some raw
    | UnitInfo.kilometers ↦ some (k.kilometers_from_meters raw)
    | UnitInfo.f64 ↦ some raw
    | _ ↦ none
  ]
  new_raw_value UnitInfo.kilometers to raw = elim to [
    | UnitInfo.meters ↦ some (k.meters_from_kilometers raw)
    | UnitInfo.kilometers ↦ some raw
    | UnitInfo.f64 ↦ some raw
    | _ ↦ none
  ]
  new_raw_value UnitInfo.seconds to raw = elim to [
    | UnitInfo.seconds ↦ some raw
    | UnitInfo.minutes ↦ some (k.minutes_from_seconds raw)
    | UnitInfo.hours ↦ some (k.hours_from_seconds raw)
    | UnitInfo.f64 ↦ some raw
    | _ ↦ none
  ]
  new_raw_value UnitInfo.minutes to raw = elim to [
    | UnitInfo.seconds ↦ some (k.seconds_from_minutes raw)
    | UnitInfo.minutes ↦ some raw
    | UnitInfo.hours ↦ some (k.hours_from_minutes raw)
    | UnitInfo.f64 ↦ some raw
    | _ ↦ none
  ]
  new_raw_value UnitInfo.hours to raw = elim to [
    | UnitInfo.seconds ↦ some (k.seconds_from_hours raw)
    | UnitInfo.minutes ↦ some (k.minutes_from_hours raw)
    | UnitInfo.hours ↦ some raw
    | UnitInfo.f64 ↦ some raw
    | _ ↦ none
  ]
  new_raw_value UnitInfo.kilometers_per_hour to raw = elim to [
    | UnitInfo.kilometers_per_hour ↦ some raw
    | UnitInfo.f64 ↦ some raw
    | _ ↦ none
  ]
  new_raw_value UnitInfo.lane_count to raw = elim to [
    | UnitInfo.lane_count ↦ some raw
    | UnitInfo.f64 ↦ some raw
    | _ ↦ none
  ]
  new_raw_value UnitInfo.f64 to raw = some raw

  unfoldable pub try_convert : UnitInfo → UnitInfo → F → Outcome F
  unfolding new_raw_value debug
  try_convert self to raw = elim (new_raw_value self to raw) [
    | some value ↦ ok value
    | none ↦ err (not_convertible (debug self) (debug to))
  ]

  -- The `match` on the result's unit.
  unfoldable pub raw_result : UnitInfo → UnitInfo → F → UnitInfo → F → Option F
  raw_result UnitInfo.meters unit_a a unit_b b = none
  raw_result UnitInfo.kilometers unit_a a unit_b b = none
  raw_result UnitInfo.seconds unit_a a unit_b b =
      if is_kilometers unit_a && is_kilometers_per_hour unit_b
      then some (k.seconds_from_travel a b)
      else none
  raw_result UnitInfo.minutes unit_a a unit_b b =
      if is_kilometers unit_a && is_kilometers_per_hour unit_b
      then some (k.minutes_from_travel a b)
      else none
  raw_result UnitInfo.hours unit_a a unit_b b =
      if is_kilometers unit_a && is_kilometers_per_hour unit_b
      then some (k.hours_from_travel a b)
      else none
  raw_result UnitInfo.kilometers_per_hour unit_a a unit_b b =
      if is_kilometers unit_a && is_hours unit_b
      then some (k.kilometers_per_hour_from a b)
      else none
  raw_result UnitInfo.lane_count unit_a a unit_b b = none
  raw_result UnitInfo.f64 unit_a a unit_b b = none

  unfoldable pub try_calc : UnitInfo → UnitInfo → F → UnitInfo → F → Outcome F
  unfolding raw_result debug
  try_calc self unit_a a unit_b b = elim (raw_result self unit_a a unit_b b) [
    | some value ↦ ok value
    | none ↦ err (not_calculable (debug self) (debug unit_a) (debug unit_b))
  ]
