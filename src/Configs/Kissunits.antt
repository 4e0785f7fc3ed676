-- ===== src/Configs/Kissunits.antt =====
-- The conversions of the crate `kissunits` that the source calls: the raw value behind
-- `*To::from(From(raw_value))`.
pub record Kissunits (F : Type 0) : Type 0 where
  pub meters_from_kilometers : F → F
  pub kilometers_from_meters : F → F
  pub seconds_from_minutes : F → F
  pub seconds_from_hours : F → F
  pub minutes_from_seconds : F → F
  pub minutes_from_hours : F → F
  pub hours_from_seconds : F → F
  pub hours_from_minutes : F → F
  -- `Kilometers(a) / KilometersPerHour(b)`, as seconds, minutes and hours
  pub seconds_from_travel : F → F → F
  pub minutes_from_travel : F → F → F
  pub hours_from_travel : F → F → F
  -- `KilometersPerHour::from(Kilometers(a) / Hours(b))`
  pub kilometers_per_hour_from : F → F → F
