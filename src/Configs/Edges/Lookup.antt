-- ===== src/Configs/Edges/Lookup.antt =====
-- A configuration of the edges finds each of its metrics by its id.
use osmgraphing.Prelude.{
  ℕ, suc, ◌≡◌, refl, sym, ap, ◌⊎◌, inl, inr, some, true, List, [], ◌∷◌, In, Bool-cases, get_elem?,
}
use osmgraphing.Rust.Outcome.{ok, err, duplicate_config_id}
use osmgraphing.Network.Street.Text.{text_eq}
use osmgraphing.Configs.Metrics
use osmgraphing.Configs.Metrics.{SimpleId, position, try_idx_of}
use osmgraphing.Configs.Edges.{
  ProtoCategory, ProtoConfig, Config, metric_units, metric_ids, filled, try_from,
}
use osmgraphing.Configs.Edges.Ids.{text_eq_iff, ids_of, AreDistinct, check_ids_cases}

In-ids_of :
    (unit : Metrics.ProtoUnitInfo) (id : SimpleId) (categories : List ProtoCategory)
    → In (ProtoCategory.metric unit id) categories
    → In id (ids_of categories)
In-ids_of unit id [] m = absurd m
In-ids_of unit id (ProtoCategory.meta info id' ∷ categories) m = elim m [
  | inl e ↦ cc
  | inr n ↦ inr (In-ids_of unit id categories n)
]
In-ids_of unit id (ProtoCategory.metric unit' id' ∷ categories) m = elim m [
  | inl e ↦ inl (cc)
  | inr n ↦ inr (In-ids_of unit id categories n)
]
In-ids_of unit id (ProtoCategory.ignored ∷ categories) m = elim m [
  | inl e ↦ cc
  | inr n ↦ In-ids_of unit id categories n
]

position-metric_ids :
    (unit : Metrics.ProtoUnitInfo) (id : SimpleId) (categories : List ProtoCategory)
    → AreDistinct (ids_of categories)
    → In (ProtoCategory.metric unit id) categories
    → (i : ℕ) × (position (metric_ids categories) id ≡ some i)
      × (get_elem? (metric_units categories) i ≡ some (Metrics.from_proto unit))
unfolding position metric_ids metric_units
position-metric_ids unit id [] distinct m = absurd m
position-metric_ids unit id (ProtoCategory.meta info id' ∷ categories) distinct m = elim m [
  | inl e ↦ cc
  | inr n ↦ position-metric_ids unit id categories distinct.1 n
]
position-metric_ids unit id (ProtoCategory.ignored ∷ categories) distinct m = elim m [
  | inl e ↦ cc
  | inr n ↦ position-metric_ids unit id categories distinct n
]
position-metric_ids unit id (ProtoCategory.metric unit' id' ∷ categories) distinct m = elim m [
  | inl e ↦
      let same_unit : unit ≡ unit' = cc in
      let same : text_eq id' id ≡ true = (text_eq_iff id' id).1 (cc) in
      (0, rw same refl, ap (λ u. some (Metrics.from_proto u)) (sym same_unit))
  | inr n ↦
      let (i, e, at_i) = position-metric_ids unit id categories distinct.1 n in
      elim (Bool-cases (text_eq id' id)) [
        | inl same ↦
            let q : id' ≡ id = (text_eq_iff id' id).0 same in
            absurd (distinct.0 (rw q (In-ids_of unit id categories n)))
        | inr other ↦ (suc i, rw (other, e) refl, at_i)
      ]
]

-- What a metric's id leads to.
abbrev pub Finds : Config → Metrics.ProtoUnitInfo → SimpleId → Type 0
Finds cfg unit id =
    (i : ℕ) × (try_idx_of cfg.metrics id ≡ ok i)
    × (get_elem? cfg.metrics.units i ≡ some (Metrics.from_proto unit))

filled-Finds :
    (proto_cfg : ProtoConfig) (unit : Metrics.ProtoUnitInfo) (id : SimpleId)
    → AreDistinct (ids_of proto_cfg.categories)
    → In (ProtoCategory.metric unit id) proto_cfg.categories
    → Finds (filled proto_cfg) unit id
unfolding filled try_idx_of
filled-Finds proto_cfg unit id distinct m =
    let (i, found, at_i) = position-metric_ids unit id proto_cfg.categories distinct m in
    (i, rw (try_idx_of, found) refl, at_i)

-- The configuration of the edges is either made from categories whose ids are all distinct, and
-- then `try_idx_of` finds every metric-category's id at a position that holds its unit, or two of
-- the categories have the same id, and then the error names an id of the categories.
pub try_from_cases :
    (proto_cfg : ProtoConfig)
    → (AreDistinct (ids_of proto_cfg.categories)
        × (cfg : Config) × (try_from proto_cfg ≡ ok cfg)
        × ((unit : Metrics.ProtoUnitInfo) (id : SimpleId)
            → In (ProtoCategory.metric unit id) proto_cfg.categories
            → Finds cfg unit id))
      ⊎ ((¬ AreDistinct (ids_of proto_cfg.categories))
          × (id : SimpleId) × In id (ids_of proto_cfg.categories)
          × (try_from proto_cfg ≡ err (duplicate_config_id id)))
unfolding try_from
try_from_cases proto_cfg = elim (check_ids_cases proto_cfg.categories) [
  | inl (distinct, e) ↦ inl (
    distinct,
    filled proto_cfg,
    rw e refl,
    λ unit id m. filled-Finds proto_cfg unit id distinct m,
  )
  | inr (repeated, id, m, e) ↦ inr (repeated, id, m, rw e refl)
]
