-- ===== src/Configs/Metrics.antt =====
-- configs/parsing/edges/metrics.rs: the metrics of a parsed graph, their units and ids.
pub mod Units
use Prim.Native.String.{String}
use osmgraphing.Prelude.{ℕ, zero, suc, ◌+◌, Option, none, some, Bool, List, [], ◌∷◌, if◌then◌else◌}
use osmgraphing.Rust.Outcome.{Outcome, ok, err, panic, not_convertible, unknown_metric_id}
use osmgraphing.Network.Graph.{MetricIdx}
use osmgraphing.Network.Street.Text.{Text, text_eq}
use osmgraphing.Configs.Kissunits.{Kissunits}
use osmgraphing.Configs.Generating

-- `SimpleId(pub String)`
abbrev pub SimpleId : Type 0
SimpleId = Text

pub data UnitInfo : Type 0 where
  meters : UnitInfo
  kilometers : UnitInfo
  seconds : UnitInfo
  minutes : UnitInfo
  hours : UnitInfo
  kilometers_per_hour : UnitInfo
  lane_count : UnitInfo
  f64 : UnitInfo

pub data ProtoUnitInfo : Type 0 where
  meters : ProtoUnitInfo
  kilometers : ProtoUnitInfo
  seconds : ProtoUnitInfo
  minutes : ProtoUnitInfo
  hours : ProtoUnitInfo
  kilometers_per_hour : ProtoUnitInfo
  lane_count : ProtoUnitInfo
  f64 : ProtoUnitInfo

pub data RawUnitInfo : Type 0 where
  meters : RawUnitInfo
  kilometers : RawUnitInfo
  seconds : RawUnitInfo
  minutes : RawUnitInfo
  hours : RawUnitInfo
  kilometers_per_hour : RawUnitInfo
  lane_count : RawUnitInfo
  f64 : RawUnitInfo

unfoldable pub from_proto : ProtoUnitInfo → UnitInfo
from_proto ProtoUnitInfo.meters = UnitInfo.meters
from_proto ProtoUnitInfo.kilometers = UnitInfo.kilometers
from_proto ProtoUnitInfo.seconds = UnitInfo.seconds
from_proto ProtoUnitInfo.minutes = UnitInfo.minutes
from_proto ProtoUnitInfo.hours = UnitInfo.hours
from_proto ProtoUnitInfo.kilometers_per_hour = UnitInfo.kilometers_per_hour
from_proto ProtoUnitInfo.lane_count = UnitInfo.lane_count
from_proto ProtoUnitInfo.f64 = UnitInfo.f64

unfoldable pub from_generating : Generating.UnitInfo → UnitInfo
from_generating Generating.UnitInfo.meters = UnitInfo.meters
from_generating Generating.UnitInfo.kilometers = UnitInfo.kilometers
from_generating Generating.UnitInfo.seconds = UnitInfo.seconds
from_generating Generating.UnitInfo.minutes = UnitInfo.minutes
from_generating Generating.UnitInfo.hours = UnitInfo.hours
from_generating Generating.UnitInfo.kilometers_per_hour = UnitInfo.kilometers_per_hour
from_generating Generating.UnitInfo.lane_count = UnitInfo.lane_count
from_generating Generating.UnitInfo.f64 = UnitInfo.f64

unfoldable pub from_raw : RawUnitInfo → ProtoUnitInfo
from_raw RawUnitInfo.meters = ProtoUnitInfo.meters
from_raw RawUnitInfo.kilometers = ProtoUnitInfo.kilometers
from_raw RawUnitInfo.seconds = ProtoUnitInfo.seconds
from_raw RawUnitInfo.minutes = ProtoUnitInfo.minutes
from_raw RawUnitInfo.hours = ProtoUnitInfo.hours
from_raw RawUnitInfo.kilometers_per_hour = ProtoUnitInfo.kilometers_per_hour
from_raw RawUnitInfo.lane_count = ProtoUnitInfo.lane_count
from_raw RawUnitInfo.f64 = ProtoUnitInfo.f64

-- The derived `Debug`.
unfoldable pub debug : UnitInfo → String
debug UnitInfo.meters = "Meters"
debug UnitInfo.kilometers = "Kilometers"
debug UnitInfo.seconds = "Seconds"
debug UnitInfo.minutes = "Minutes"
debug UnitInfo.hours = "Hours"
debug UnitInfo.kilometers_per_hour = "KilometersPerHour"
debug UnitInfo.lane_count = "LaneCount"
debug UnitInfo.f64 = "F64"

module _ {F : Type 0} ⦃k : Kissunits F⦄ where
  -- The `match` on both units.
  unfoldable pub new_raw_value : UnitInfo → UnitInfo → F → Option F
  new_raw_value UnitInfo.meters to raw = elim to [
    | UnitInfo.meters ↦ some raw
    | UnitInfo.kilometers ↦ some (k.kilometers_from_meters raw)
    | UnitInfo.f64 ↦ some raw
    | _ ↦ none
  ]
  new_raw_value UnitInfo.kilometers to raw = elim to [
    | UnitInfo.meters ↦ some (k.meters_from_kilometers raw)
    | UnitInfo.kilometers ↦ some raw
    | UnitInfo.f64 ↦ some raw
    | _ ↦ none
  ]
  new_raw_value UnitInfo.seconds to raw = elim to [
    | UnitInfo.seconds ↦ some raw
    | UnitInfo.minutes ↦ some (k.minutes_from_seconds raw)
    | UnitInfo.hours ↦ some (k.hours_from_seconds raw)
    | UnitInfo.f64 ↦ some raw
    | _ ↦ none
  ]
  new_raw_value UnitInfo.minutes to raw = elim to [
    | UnitInfo.seconds ↦ some (k.seconds_from_minutes raw)
    | UnitInfo.minutes ↦ some raw
    | UnitInfo.hours ↦ some (k.hours_from_minutes raw)
    | UnitInfo.f64 ↦ some raw
    | _ ↦ none
  ]
  new_raw_value UnitInfo.hours to raw = elim to [
    | UnitInfo.seconds ↦ some (k.seconds_from_hours raw)
    | UnitInfo.minutes ↦ some (k.minutes_from_hours raw)
    | UnitInfo.hours ↦ some raw
    | UnitInfo.f64 ↦ some raw
    | _ ↦ none
  ]
  new_raw_value UnitInfo.kilometers_per_hour to raw = elim to [
    | UnitInfo.kilometers_per_hour ↦ some raw
    | UnitInfo.f64 ↦ some raw
    | _ ↦ none
  ]
  new_raw_value UnitInfo.lane_count to raw = elim to [
    | UnitInfo.lane_count ↦ some raw
    | UnitInfo.f64 ↦ some raw
    | _ ↦ none
  ]
  new_raw_value UnitInfo.f64 to raw = some raw

  unfoldable pub try_convert : UnitInfo → UnitInfo → F → Outcome F
  unfolding new_raw_value debug
  try_convert self to raw = elim (new_raw_value self to raw) [
    | some value ↦ ok value
    | none ↦ err (not_convertible (debug self) (debug to))
  ]

  -- Panics where `try_convert` fails.
  unfoldable pub convert : UnitInfo → UnitInfo → F → Outcome F
  unfolding try_convert
  convert self to raw = elim (try_convert self to raw) [ ok value ↦ ok value | _ ↦ panic ]

pub record Config : Type 0 where
  pub are_normalized : Bool
  pub units : List UnitInfo
  pub ids : List SimpleId

-- `iter().position(..)`
unfoldable pub position : List SimpleId → SimpleId → Option ℕ
unfolding text_eq
position [] id = none
position (self_id ∷ ids) id =
    let later = position ids id in
    if text_eq self_id id then some 0 else elim later [ none ↦ none | some i ↦ some (suc i) ]

unfoldable pub try_idx_of : Config → SimpleId → Outcome MetricIdx
unfolding position
try_idx_of cfg id = elim (position cfg.ids id) [
  | some idx ↦ ok idx
  | none ↦ err (unknown_metric_id id)
]

-- Panics if the id does not exist.
unfoldable pub idx_of : Config → SimpleId → Outcome MetricIdx
unfolding try_idx_of
idx_of cfg id = elim (try_idx_of cfg id) [ ok idx ↦ ok idx | _ ↦ panic ]
