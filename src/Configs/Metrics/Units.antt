-- ===== src/Configs/Metrics/Units.antt =====
-- What the conversion of units does, and that the two versions of it agree.
use osmgraphing.Prelude.{◌≡◌, ◌⊎◌, arith}
use osmgraphing.Rust.Outcome.{ok, err, not_convertible}
use osmgraphing.Configs.Kissunits.{Kissunits}
use osmgraphing.Configs.Generating
use osmgraphing.Configs.Metrics.{UnitInfo, from_generating, debug, new_raw_value, try_convert}

module _ {F : Type 0} ⦃k : Kissunits F⦄ where
  -- Converting a value between two units of generated metrics gives the same value, or the same
  -- error, as converting it between their counterparts in the parsed configuration.
  pub try_convert-from_generating :
      (self to : Generating.UnitInfo) (raw : F)
      → try_convert (from_generating self) (from_generating to) raw
        ≡ Generating.try_convert self to raw
  unfolding try_convert new_raw_value from_generating debug Generating.try_convert
      Generating.new_raw_value Generating.debug
  try_convert-from_generating self to raw = ground arith

-- What a unit measures.
pub data Quantity : Type 0 where
  length_of : Quantity
  time : Quantity
  speed : Quantity
  lanes : Quantity
  number : Quantity

abbrev pub quantity : UnitInfo → Quantity
quantity UnitInfo.meters = length_of
quantity UnitInfo.kilometers = length_of
quantity UnitInfo.seconds = time
quantity UnitInfo.minutes = time
quantity UnitInfo.hours = time
quantity UnitInfo.kilometers_per_hour = speed
quantity UnitInfo.lane_count = lanes
quantity UnitInfo.f64 = number

-- Both units measure the same, or one is a plain number.
abbrev pub IsConvertible : UnitInfo → UnitInfo → Type 0
IsConvertible a b = (quantity a ≡ number) ⊎ ((quantity b ≡ number) ⊎ (quantity a ≡ quantity b))

module _ {F : Type 0} ⦃k : Kissunits F⦄ where
  -- Converting between two units of a parsed configuration succeeds exactly if both measure the
  -- same quantity or one of them is the plain number, and otherwise ends in the error that names
  -- both units.
  pub try_convert_cases :
      (self to : UnitInfo) (raw : F)
      → (IsConvertible self to × (value : F) × (try_convert self to raw ≡ ok value))
        ⊎ ((¬ IsConvertible self to)
            × (try_convert self to raw ≡ err (not_convertible (debug self) (debug to))))
  unfolding try_convert new_raw_value debug
  try_convert_cases self to raw = ground arith
