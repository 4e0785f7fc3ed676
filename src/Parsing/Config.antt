-- ===== src/Parsing/Config.antt =====
-- configs/parsing/mod.rs, `Config`, as far as the parser reads it, and `check_config` of
-- io/parsing/network/graph/mod.rs.
pub mod Categories
pub mod Cases
use osmgraphing.Prelude.{
  ℕ, ◌+◌, Option, none, some, Bool, true, false, not, List, [], ◌∷◌, ◌||◌, ◌&&◌, length,
  if◌then◌else◌, ltb, ◌==◌,
}
use osmgraphing.Rust.Outcome.{
  Outcome, ok, err, ◌>>=◌, config_without_node_id, config_without_latitude,
  config_without_longitude, too_many_metrics, shortcut_idx_count,
}
use osmgraphing.Configs.Nodes
use osmgraphing.Configs.Edges
use osmgraphing.Configs.GeneratedEdges
use osmgraphing.Network.Graph

-- Of the generating config the categories of the edges.
pub record Config (F : Type 0) : Type 0 where
  pub nodes : Nodes.Config
  pub edges : Edges.Config
  pub generating : Option (List (GeneratedEdges.Category F))

-- What the graph reads of its config.
abbrev pub graph_config : {F : Type 0} → Config F → Graph.Config
graph_config cfg = record {
  dim = length cfg.edges.metrics.units;
  are_normalized = cfg.edges.metrics.are_normalized;
}

-- `iter().any(..)`
abbrev pub any : {A : Type 0} → (A → Bool) → List A → Bool
any test [] = false
any test (x ∷ xs) = test x || any test xs

-- `iter().filter(..).count()`
abbrev pub count_if : {A : Type 0} → (A → Bool) → List A → ℕ
count_if test [] = 0
count_if test (x ∷ xs) = (if test x then 1 else 0) + count_if test xs

unfoldable pub is_node_id : Nodes.Category → Bool
is_node_id (Nodes.Category.meta Nodes.MetaInfo.node_id id) = true
is_node_id (Nodes.Category.meta Nodes.MetaInfo.node_idx id) = false
is_node_id (Nodes.Category.meta Nodes.MetaInfo.ch_level id) = false
is_node_id (Nodes.Category.metric unit id) = false
is_node_id Nodes.Category.ignored = false

unfoldable pub is_latitude : Nodes.Category → Bool
is_latitude (Nodes.Category.metric Nodes.UnitInfo.latitude id) = true
is_latitude (Nodes.Category.metric Nodes.UnitInfo.longitude id) = false
is_latitude (Nodes.Category.metric Nodes.UnitInfo.height id) = false
is_latitude (Nodes.Category.meta info id) = false
is_latitude Nodes.Category.ignored = false

unfoldable pub is_longitude : Nodes.Category → Bool
is_longitude (Nodes.Category.metric Nodes.UnitInfo.longitude id) = true
is_longitude (Nodes.Category.metric Nodes.UnitInfo.latitude id) = false
is_longitude (Nodes.Category.metric Nodes.UnitInfo.height id) = false
is_longitude (Nodes.Category.meta info id) = false
is_longitude Nodes.Category.ignored = false

unfoldable pub is_shortcut_info : Edges.MetaInfo → Bool
is_shortcut_info Edges.MetaInfo.shortcut_idx_0 = true
is_shortcut_info Edges.MetaInfo.shortcut_idx_1 = true
is_shortcut_info _ = false

unfoldable pub is_shortcut_idx : Edges.Category → Bool
unfolding is_shortcut_info
is_shortcut_idx (Edges.Category.meta info id) = is_shortcut_info info
is_shortcut_idx (Edges.Category.metric unit id) = false
is_shortcut_idx Edges.Category.ignored = false

-- How many metrics a generated category adds.
unfoldable pub generated_dim : {F : Type 0} → GeneratedEdges.Category F → ℕ
generated_dim (GeneratedEdges.Category.meta _ _) = 0
generated_dim (GeneratedEdges.Category.convert _ _) = 0
generated_dim (GeneratedEdges.Category.calc _ _ _) = 1
generated_dim (GeneratedEdges.Category.copy _ _) = 1
generated_dim (GeneratedEdges.Category.haversine _ _) = 1
generated_dim (GeneratedEdges.Category.custom _ _ _) = 1
generated_dim (GeneratedEdges.Category.merge _ _ _ _) = 0

unfoldable pub sum_dims : {F : Type 0} → List (GeneratedEdges.Category F) → ℕ
unfolding generated_dim
sum_dims [] = 0
sum_dims (category ∷ categories) = generated_dim category + sum_dims categories

unfoldable pub generated_dims : {F : Type 0} → Option (List (GeneratedEdges.Category F)) → ℕ
unfolding sum_dims
generated_dims none = 0
generated_dims (some categories) = sum_dims categories

-- The dimension that the graph is compiled to, `SMALL_VEC_INLINE_SIZE`, is the parameter `capacity`.
-- Fewer metrics than this lead to a warning only.
unfoldable pub check_config : {F : Type 0} → ℕ → Config F → Outcome (Unit {0})
unfolding is_node_id is_latitude is_longitude is_shortcut_idx generated_dims
check_config capacity cfg =
    if not (any is_node_id cfg.nodes.categories)
    then err config_without_node_id
    else if not (any is_latitude cfg.nodes.categories)
    then err config_without_latitude
    else if not (any is_longitude cfg.nodes.categories)
    then err config_without_longitude
    else let dim = length cfg.edges.metrics.units + generated_dims cfg.generating in
      if ltb capacity dim
      then err (too_many_metrics dim capacity)
      else let count = count_if is_shortcut_idx cfg.edges.categories in
        if ltb 0 count && not (count == 2) then err (shortcut_idx_count count) else ok tt
