-- ===== src/Configs/GeneratedEdges.antt =====
-- configs/parsing/generating/edges/mod.rs: what is generated for the edges. And of
-- network/graph/building.rs, `finalize`: the check that no generated id is there already.
pub mod Check
use osmgraphing.Prelude.{Option, none, some, Bool, true, false, List, [], ◌∷◌, ◌||◌, if◌then◌else◌}
use osmgraphing.Rust.Outcome.{Outcome, ok, err, generated_id_exists}
use osmgraphing.Network.Street.Text.{Text, text_eq}
use osmgraphing.Configs.Generating
use osmgraphing.Configs.Metrics.{SimpleId}
use osmgraphing.Configs.Edges

pub data MetaInfo : Type 0 where
  edge_id : MetaInfo
  src_idx : MetaInfo
  src_lat : MetaInfo
  src_lon : MetaInfo
  dst_idx : MetaInfo
  dst_lat : MetaInfo
  dst_lon : MetaInfo
  shortcut_idx_0 : MetaInfo
  shortcut_idx_1 : MetaInfo

-- metrics::Category
pub record MetricCategory : Type 0 where
  pub unit : Generating.UnitInfo
  pub id : SimpleId

-- merge::Category
pub data MergeCategory : Type 0 where
  of_id : SimpleId → MergeCategory
  ignored : MergeCategory

-- A path of the file-system is a text.
pub data Category (F : Type 0) : Type 0 where
  meta : MetaInfo → SimpleId → Category F
  custom : Generating.UnitInfo → SimpleId → F → Category F
  haversine : Generating.UnitInfo → SimpleId → Category F
  copy : (from to : MetricCategory) → Category F
  convert : (from to : MetricCategory) → Category F
  calc : (result a b : MetricCategory) → Category F
  merge :
      (from : Text)
      → (is_file_with_header : Bool) → (edge : SimpleId) → List MergeCategory
      → Category F

-- `From<generating::edges::MetaInfo>` of the parsed configuration.
unfoldable pub parsed_meta_info : MetaInfo → Edges.MetaInfo
parsed_meta_info MetaInfo.edge_id = Edges.MetaInfo.edge_id
parsed_meta_info MetaInfo.src_idx = Edges.MetaInfo.src_idx
parsed_meta_info MetaInfo.src_lat = Edges.MetaInfo.src_lat
parsed_meta_info MetaInfo.src_lon = Edges.MetaInfo.src_lon
parsed_meta_info MetaInfo.dst_idx = Edges.MetaInfo.dst_idx
parsed_meta_info MetaInfo.dst_lat = Edges.MetaInfo.dst_lat
parsed_meta_info MetaInfo.dst_lon = Edges.MetaInfo.dst_lon
parsed_meta_info MetaInfo.shortcut_idx_0 = Edges.MetaInfo.shortcut_idx_0
parsed_meta_info MetaInfo.shortcut_idx_1 = Edges.MetaInfo.shortcut_idx_1

-- The id of the new category. In-place categories are not checked.
abbrev pub new_id : {F : Type 0} → Category F → Option SimpleId
new_id (Category.meta info id) = some id
new_id (Category.custom unit id default) = some id
new_id (Category.haversine unit id) = some id
new_id (Category.copy from to) = some to.id
new_id (Category.convert from to) = none
new_id (Category.calc result a b) = some result.id
new_id (Category.merge from is_file_with_header edge edges_info) = none

-- `graph.cfg.edges.categories.iter().any(..)`
unfoldable pub exists_id : SimpleId → List Edges.Category → Bool
unfolding text_eq
exists_id new [] = false
exists_id new (Edges.Category.meta info id ∷ categories) =
    text_eq new id || exists_id new categories
exists_id new (Edges.Category.metric unit id ∷ categories) =
    text_eq new id || exists_id new categories
exists_id new (Edges.Category.ignored ∷ categories) = exists_id new categories

-- The loop over the generated categories, before anything is added.
unfoldable pub check_generated :
    {F : Type 0} → List Edges.Category → List (Category F) → Outcome (Unit {0})
unfolding exists_id
check_generated existing [] = ok tt
check_generated existing (category ∷ categories) =
    let rest = check_generated existing categories in
    elim (new_id category) [
      | none ↦ rest
      | some id ↦ if exists_id id existing then err (generated_id_exists id) else rest
    ]
