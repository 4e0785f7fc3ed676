-- ===== src/Configs/Nodes.antt =====
-- configs/parsing/nodes and configs/parsing/generating/nodes: the categories of a file's node-columns.
use osmgraphing.Prelude.{List, map}
use osmgraphing.Configs.Metrics.{SimpleId}

pub data MetaInfo : Type 0 where
  node_id : MetaInfo
  node_idx : MetaInfo
  ch_level : MetaInfo

pub data ProtoMetaInfo : Type 0 where
  node_id : ProtoMetaInfo
  ch_level : ProtoMetaInfo

pub data RawMetaInfo : Type 0 where
  node_id : RawMetaInfo
  ch_level : RawMetaInfo

pub data GeneratedMetaInfo : Type 0 where
  node_id : GeneratedMetaInfo
  node_idx : GeneratedMetaInfo
  ch_level : GeneratedMetaInfo

pub data UnitInfo : Type 0 where
  latitude : UnitInfo
  longitude : UnitInfo
  height : UnitInfo

pub data ProtoUnitInfo : Type 0 where
  latitude : ProtoUnitInfo
  longitude : ProtoUnitInfo
  height : ProtoUnitInfo

pub data RawUnitInfo : Type 0 where
  latitude : RawUnitInfo
  longitude : RawUnitInfo

pub data Category : Type 0 where
  meta : MetaInfo → SimpleId → Category
  metric : UnitInfo → SimpleId → Category
  ignored : Category

pub data ProtoCategory : Type 0 where
  meta : ProtoMetaInfo → SimpleId → ProtoCategory
  metric : ProtoUnitInfo → SimpleId → ProtoCategory
  ignored : ProtoCategory

pub data RawCategory : Type 0 where
  meta : RawMetaInfo → SimpleId → RawCategory
  metric : RawUnitInfo → SimpleId → RawCategory
  ignored : RawCategory

pub data GeneratedCategory : Type 0 where
  meta : GeneratedMetaInfo → SimpleId → GeneratedCategory

pub record Config : Type 0 where
  pub categories : List Category

unfoldable pub unit_from_proto : ProtoUnitInfo → UnitInfo
unit_from_proto ProtoUnitInfo.latitude = UnitInfo.latitude
unit_from_proto ProtoUnitInfo.longitude = UnitInfo.longitude
unit_from_proto ProtoUnitInfo.height = UnitInfo.height

unfoldable pub unit_from_raw : RawUnitInfo → ProtoUnitInfo
unit_from_raw RawUnitInfo.latitude = ProtoUnitInfo.latitude
unit_from_raw RawUnitInfo.longitude = ProtoUnitInfo.longitude

unfoldable pub meta_from_proto : ProtoMetaInfo → MetaInfo
meta_from_proto ProtoMetaInfo.node_id = MetaInfo.node_id
meta_from_proto ProtoMetaInfo.ch_level = MetaInfo.ch_level

unfoldable pub meta_from_raw : RawMetaInfo → ProtoMetaInfo
meta_from_raw RawMetaInfo.node_id = ProtoMetaInfo.node_id
meta_from_raw RawMetaInfo.ch_level = ProtoMetaInfo.ch_level

unfoldable pub meta_from_generated : GeneratedMetaInfo → MetaInfo
meta_from_generated GeneratedMetaInfo.node_id = MetaInfo.node_id
meta_from_generated GeneratedMetaInfo.node_idx = MetaInfo.node_idx
meta_from_generated GeneratedMetaInfo.ch_level = MetaInfo.ch_level

unfoldable pub node_category_from : ProtoCategory → Category
unfolding meta_from_proto unit_from_proto
node_category_from (ProtoCategory.meta info id) = Category.meta (meta_from_proto info) id
node_category_from (ProtoCategory.metric unit id) = Category.metric (unit_from_proto unit) id
node_category_from ProtoCategory.ignored = Category.ignored

unfoldable pub proto_node_category_from : RawCategory → ProtoCategory
unfolding meta_from_raw unit_from_raw
proto_node_category_from (RawCategory.meta info id) = ProtoCategory.meta (meta_from_raw info) id
proto_node_category_from (RawCategory.metric unit id) = ProtoCategory.metric (unit_from_raw unit) id
proto_node_category_from RawCategory.ignored = ProtoCategory.ignored

unfoldable pub category_from_generated : GeneratedCategory → Category
unfolding meta_from_generated
category_from_generated (GeneratedCategory.meta info id) =
    Category.meta (meta_from_generated info) id

-- `From<RawConfig>` and `From<ProtoConfig>`
unfoldable pub node_config_from : List ProtoCategory → Config
unfolding node_category_from
node_config_from proto_cfg = record { categories = map node_category_from proto_cfg }

unfoldable pub proto_node_config_from : List RawCategory → List ProtoCategory
unfolding proto_node_category_from
proto_node_config_from raw_cfg = map proto_node_category_from raw_cfg
