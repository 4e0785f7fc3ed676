-- ===== src/Configs/Edges.antt =====
-- configs/parsing/edges/mod.rs: the categories of a file's edge-columns, and the check of their ids.
pub mod Ids
pub mod Lookup
use osmgraphing.Prelude.{
  Option, none, some, Bool, true, false, List, [], ◌∷◌, ◌++◌, ◌||◌, map, if◌then◌else◌,
}
use osmgraphing.Rust.Outcome.{Outcome, ok, err, ◌>>=◌, duplicate_config_id}
use osmgraphing.Network.Street.Text.{text_eq}
use osmgraphing.Configs.Metrics
use osmgraphing.Configs.Metrics.{SimpleId}

pub data MetaInfo : Type 0 where
  edge_id : MetaInfo
  src_id : MetaInfo
  src_idx : MetaInfo
  src_lat : MetaInfo
  src_lon : MetaInfo
  dst_id : MetaInfo
  dst_idx : MetaInfo
  dst_lat : MetaInfo
  dst_lon : MetaInfo
  shortcut_idx_0 : MetaInfo
  shortcut_idx_1 : MetaInfo

pub data ProtoMetaInfo : Type 0 where
  edge_id : ProtoMetaInfo
  src_id : ProtoMetaInfo
  dst_id : ProtoMetaInfo
  shortcut_idx_0 : ProtoMetaInfo
  shortcut_idx_1 : ProtoMetaInfo

pub data RawMetaInfo : Type 0 where
  edge_id : RawMetaInfo
  src_id : RawMetaInfo
  dst_id : RawMetaInfo
  shortcut_idx_0 : RawMetaInfo
  shortcut_idx_1 : RawMetaInfo

pub data Category : Type 0 where
  meta : MetaInfo → SimpleId → Category
  metric : Metrics.UnitInfo → SimpleId → Category
  ignored : Category

pub data ProtoCategory : Type 0 where
  meta : ProtoMetaInfo → SimpleId → ProtoCategory
  metric : Metrics.ProtoUnitInfo → SimpleId → ProtoCategory
  ignored : ProtoCategory

pub data RawCategory : Type 0 where
  meta : RawMetaInfo → SimpleId → RawCategory
  metric : Metrics.RawUnitInfo → SimpleId → RawCategory
  ignored : RawCategory

unfoldable pub meta_info_from : ProtoMetaInfo → MetaInfo
meta_info_from ProtoMetaInfo.edge_id = MetaInfo.edge_id
meta_info_from ProtoMetaInfo.src_id = MetaInfo.src_id
meta_info_from ProtoMetaInfo.dst_id = MetaInfo.dst_id
meta_info_from ProtoMetaInfo.shortcut_idx_0 = MetaInfo.shortcut_idx_0
meta_info_from ProtoMetaInfo.shortcut_idx_1 = MetaInfo.shortcut_idx_1

unfoldable pub proto_meta_info_from : RawMetaInfo → ProtoMetaInfo
proto_meta_info_from RawMetaInfo.edge_id = ProtoMetaInfo.edge_id
proto_meta_info_from RawMetaInfo.src_id = ProtoMetaInfo.src_id
proto_meta_info_from RawMetaInfo.dst_id = ProtoMetaInfo.dst_id
proto_meta_info_from RawMetaInfo.shortcut_idx_0 = ProtoMetaInfo.shortcut_idx_0
proto_meta_info_from RawMetaInfo.shortcut_idx_1 = ProtoMetaInfo.shortcut_idx_1

unfoldable pub category_from : ProtoCategory → Category
unfolding meta_info_from Metrics.from_proto
category_from (ProtoCategory.meta info id) = Category.meta (meta_info_from info) id
category_from (ProtoCategory.metric unit id) = Category.metric (Metrics.from_proto unit) id
category_from ProtoCategory.ignored = Category.ignored

unfoldable pub proto_category_from : RawCategory → ProtoCategory
unfolding proto_meta_info_from Metrics.from_raw
proto_category_from (RawCategory.meta info id) = ProtoCategory.meta (proto_meta_info_from info) id
proto_category_from (RawCategory.metric unit id) = ProtoCategory.metric (Metrics.from_raw unit) id
proto_category_from RawCategory.ignored = ProtoCategory.ignored

pub record RawConfig : Type 0 where
  pub are_metrics_normalized : Option Bool
  pub data_of : List RawCategory

pub record ProtoConfig : Type 0 where
  pub are_metrics_normalized : Option Bool
  pub categories : List ProtoCategory

pub record Config : Type 0 where
  pub categories : List Category
  pub metrics : Metrics.Config

unfoldable pub proto_config_from : RawConfig → ProtoConfig
unfolding proto_category_from
proto_config_from raw = record {
  are_metrics_normalized = raw.are_metrics_normalized;
  categories = map proto_category_from raw.data_of;
}

-- An ignored category has no id and is skipped.
abbrev pub id_of : ProtoCategory → Option SimpleId
id_of (ProtoCategory.meta info id) = some id
id_of (ProtoCategory.metric unit id) = some id
id_of ProtoCategory.ignored = none

-- The loop over `j`: whether the id occurs behind its category.
unfoldable pub occurs : SimpleId → List ProtoCategory → Bool
unfolding text_eq
occurs id_i [] = false
occurs id_i (category ∷ categories) = elim (id_of category) [
  | none ↦ occurs id_i categories
  | some id_j ↦ text_eq id_i id_j || occurs id_i categories
]

-- The loop over `i`.
unfoldable pub check_ids : List ProtoCategory → Outcome (Unit {0})
unfolding occurs
check_ids [] = ok tt
check_ids (category ∷ categories) =
    let rest = check_ids categories in
    elim (id_of category) [
      | none ↦ rest
      | some id_i ↦ if occurs id_i categories then err (duplicate_config_id id_i) else rest
    ]

-- The units and the ids of the metrics, in their order.
unfoldable pub metric_units : List ProtoCategory → List Metrics.UnitInfo
unfolding Metrics.from_proto
metric_units [] = []
metric_units (ProtoCategory.metric unit id ∷ categories) =
    Metrics.from_proto unit ∷ metric_units categories
metric_units (ProtoCategory.meta info id ∷ categories) = metric_units categories
metric_units (ProtoCategory.ignored ∷ categories) = metric_units categories

unfoldable pub metric_ids : List ProtoCategory → List SimpleId
metric_ids [] = []
metric_ids (ProtoCategory.metric unit id ∷ categories) = id ∷ metric_ids categories
metric_ids (ProtoCategory.meta info id ∷ categories) = metric_ids categories
metric_ids (ProtoCategory.ignored ∷ categories) = metric_ids categories

-- defaults::parsing::WILL_NORMALIZE_METRICS_BY_MEAN
abbrev will_normalize_metrics_by_mean : Bool
will_normalize_metrics_by_mean = false

abbrev unwrap_or : Option Bool → Bool → Bool
unwrap_or none default = default
unwrap_or (some b) default = b

-- The second loop and the result.
unfoldable pub filled : ProtoConfig → Config
filled proto_cfg = record {
  categories = map category_from proto_cfg.categories;
  metrics = record {
    are_normalized = unwrap_or proto_cfg.are_metrics_normalized will_normalize_metrics_by_mean;
    units = metric_units proto_cfg.categories;
    ids = metric_ids proto_cfg.categories;
  };
}

-- `TryFrom<ProtoConfig>`
unfoldable pub try_from : ProtoConfig → Outcome Config
unfolding check_ids
try_from proto_cfg = check_ids proto_cfg.categories >>= λ _. ok (filled proto_cfg)
