-- ===== src/Network/Geo.antt =====
-- `kissunits::geo::Coordinate`, whose fields the program reads and sets.
use osmgraphing.Prelude.{◌≡◌}

pub record Geo (F C : Type 0) : Type 0 where
  pub coordinate : F → F → C
  pub lat : C → F
  pub lon : C → F

-- A coordinate consists of its latitude and its longitude.
abbrev pub IsPair : {F C : Type 0} → Geo F C → Type 0
IsPair {C = C} geo = (c : C) → geo.coordinate (geo.lat c) (geo.lon c) ≡ c
