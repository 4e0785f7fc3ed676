-- ===== src/Tests/Configs.antt =====
-- Units, and a configuration of three columns.
use osmgraphing.Prelude.{List, All, ◌≡◌, ◌⊎◌, none, [], ◌∷◌, In, ℕ, ◌*◌, ◌/◌}
use osmgraphing.Rust.Outcome.{ok, err, not_convertible, duplicate_config_id, generated_id_exists}
use osmgraphing.Network.Street.Text.{codes}
use osmgraphing.Configs.Kissunits.{Kissunits}
use osmgraphing.Configs.Generating
use osmgraphing.Configs.Metrics
use osmgraphing.Configs.Metrics.Units.{
  IsConvertible, try_convert_cases, try_convert-from_generating,
}
use osmgraphing.Configs.Edges.{
  Category, ProtoCategory, ProtoMetaInfo, ProtoConfig, Config, try_from,
}
use osmgraphing.Configs.GeneratedEdges
use osmgraphing.Configs.GeneratedEdges.Check.{Clashes, FirstClash, check_generated_cases}
use osmgraphing.Configs.Edges.Ids.{ids_of, AreDistinct}
use osmgraphing.Configs.Edges.Lookup.{Finds, try_from_cases}

-- Numbers in place of floats.
abbrev whole : Kissunits ℕ
whole = record {
  meters_from_kilometers = λ a. a * 1000;
  kilometers_from_meters = λ a. a / 1000;
  seconds_from_minutes = λ a. a * 60;
  seconds_from_hours = λ a. a * 3600;
  minutes_from_seconds = λ a. a / 60;
  minutes_from_hours = λ a. a * 60;
  hours_from_seconds = λ a. a / 3600;
  hours_from_minutes = λ a. a / 60;
  seconds_from_travel = λ a b. a * 3600 / b;
  minutes_from_travel = λ a b. a * 60 / b;
  hours_from_travel = λ a b. a / b;
  kilometers_per_hour_from = λ a b. a / b;
}

try_convert-from_generating_example :
    Metrics.try_convert ⦃k = whole⦄
      (Metrics.from_generating Generating.UnitInfo.hours)
      (Metrics.from_generating Generating.UnitInfo.minutes)
      2
    ≡ Generating.try_convert ⦃k = whole⦄ Generating.UnitInfo.hours Generating.UnitInfo.minutes 2
try_convert-from_generating_example =
    try_convert-from_generating ⦃k = whole⦄ Generating.UnitInfo.hours Generating.UnitInfo.minutes 2

try_convert_example :
    (IsConvertible Metrics.UnitInfo.hours Metrics.UnitInfo.meters
      × (value : ℕ) × (Metrics.try_convert ⦃k = whole⦄ Metrics.UnitInfo.hours
            Metrics.UnitInfo.meters 2
          ≡ ok value))
    ⊎ ((¬ IsConvertible Metrics.UnitInfo.hours Metrics.UnitInfo.meters)
        × (Metrics.try_convert ⦃k = whole⦄ Metrics.UnitInfo.hours Metrics.UnitInfo.meters 2
            ≡ err (
                not_convertible
                  (Metrics.debug Metrics.UnitInfo.hours)
                  (Metrics.debug Metrics.UnitInfo.meters))))
try_convert_example = try_convert_cases ⦃k = whole⦄ Metrics.UnitInfo.hours Metrics.UnitInfo.meters 2

abbrev columns : ProtoConfig
columns = record {
  are_metrics_normalized = none;
  categories =
      ProtoCategory.meta ProtoMetaInfo.src_id (codes "src-id")
      ∷ ProtoCategory.metric Metrics.ProtoUnitInfo.kilometers (codes "length")
      ∷ ProtoCategory.ignored
      ∷ ProtoCategory.metric Metrics.ProtoUnitInfo.hours (codes "duration")
      ∷ [];
}

try_from_example :
    (AreDistinct (ids_of columns.categories)
      × (cfg : Config) × (try_from columns ≡ ok cfg)
      × ((unit : Metrics.ProtoUnitInfo) (id : Metrics.SimpleId)
          → In (ProtoCategory.metric unit id) columns.categories
          → Finds cfg unit id))
    ⊎ ((¬ AreDistinct (ids_of columns.categories))
        × (id : Metrics.SimpleId) × In id (ids_of columns.categories)
        × (try_from columns ≡ err (duplicate_config_id id)))
try_from_example = try_from_cases columns

abbrev column : List Category
column = Category.metric Metrics.UnitInfo.kilometers (codes "length") ∷ []

abbrev twice : List (GeneratedEdges.Category ℕ)
twice =
    GeneratedEdges.Category.haversine Generating.UnitInfo.meters (codes "air")
    ∷ GeneratedEdges.Category.custom Generating.UnitInfo.f64 (codes "air") 1
    ∷ []

check_generated_example :
    (All (λ c. ¬ Clashes column c) twice × (GeneratedEdges.check_generated column twice ≡ ok tt))
    ⊎ ((id : Metrics.SimpleId) × FirstClash column twice id
        × (GeneratedEdges.check_generated column twice ≡ err (generated_id_exists id)))
check_generated_example = check_generated_cases column twice
