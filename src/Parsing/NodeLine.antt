-- ===== src/Parsing/NodeLine.antt =====
-- io/parsing/network/graph/fmi.rs, `ProtoNode::from_str`: a line of a file as a node.
pub mod RoundTrip
use osmgraphing.Prelude.{ℕ, suc, Option, none, some, List, [], ◌∷◌, get_elem?}
use osmgraphing.Prelude.Int.{ℤ}
use osmgraphing.Rust.Outcome.{
  Outcome, ok, err, panic, ok_or, ◌>>=◌, too_few_node_params, node_id_not_i64, level_not_usize,
  lat_not_f64, lon_not_f64, unsupported_category, no_node_id, no_latitude, no_longitude,
}
use osmgraphing.Rust.Vec.{index}
use osmgraphing.Rust.Words.{split_whitespace}
use osmgraphing.Rust.Numerals.{parse_usize, parse_i64}
use osmgraphing.Rust.Float.{FloatText}
use osmgraphing.Network.Geo.{Geo}
use osmgraphing.Network.Street.Text.{Text}
use osmgraphing.Configs.Nodes
use osmgraphing.Building.Protos.{ProtoNode}

-- The variables of the loop.
pub record NodeData (F : Type 0) : Type 0 where
  pub node_id : Option ℤ
  pub lat : Option F
  pub lon : Option F
  pub ch_level : Option ℕ

abbrev pub no_node_data : {F : Type 0} → NodeData F
no_node_data = record { node_id = none; lat = none; lon = none; ch_level = none }

module _ {F : Type 0} where
  unfoldable pub read_node_meta : Nodes.MetaInfo → Text → NodeData F → Outcome (NodeData F)
  read_node_meta Nodes.MetaInfo.node_id param r =
      ok_or (parse_i64 param) (node_id_not_i64 param) >>= λ id. ok (record r { node_id = some id })
  read_node_meta Nodes.MetaInfo.ch_level param r =
      ok_or (parse_usize param) (level_not_usize param) >>= λ level.
      ok (record r { ch_level = some level })
  read_node_meta Nodes.MetaInfo.node_idx param r = err unsupported_category

module _ {F : Type 0} ⦃t : FloatText F⦄ where
  -- The errors print the params 2 and 3, wherever the value stands.
  unfoldable pub read_node_metric :
      Nodes.UnitInfo → List Text → Text → NodeData F → Outcome (NodeData F)
  read_node_metric Nodes.UnitInfo.latitude params param r = elim (t.parse_f64 param) [
    | some lat ↦ ok (record r { lat = some lat })
    | none ↦ index params 2 >>= λ shown. err (lat_not_f64 shown)
  ]
  read_node_metric Nodes.UnitInfo.longitude params param r = elim (t.parse_f64 param) [
    | some lon ↦ ok (record r { lon = some lon })
    | none ↦ index params 3 >>= λ shown. err (lon_not_f64 shown)
  ]
  read_node_metric Nodes.UnitInfo.height params param r = err unsupported_category

  -- The body of the loop.
  unfoldable pub read_node_param :
      Nodes.Category → List Text → Text → NodeData F → Outcome (NodeData F)
  unfolding read_node_meta read_node_metric
  read_node_param (Nodes.Category.meta info id) params param r = read_node_meta info param r
  read_node_param (Nodes.Category.metric unit id) params param r =
      read_node_metric unit params param r
  read_node_param Nodes.Category.ignored params param r = ok r

  -- The loop over the categories from the one at `param_idx`.
  unfoldable pub read_node_params :
      List Text → ℕ → List Nodes.Category → NodeData F → Outcome (NodeData F)
  unfolding read_node_param
  read_node_params params param_idx [] r = ok r
  read_node_params params param_idx (category ∷ categories) r =
      ok_or (get_elem? params param_idx) too_few_node_params >>= λ param.
      read_node_param category params param r >>= λ r'.
      read_node_params params (suc param_idx) categories r'

module _ {F C : Type 0} ⦃geo : Geo F C⦄ where
  unfoldable pub proto_node : NodeData F → Outcome (ProtoNode C)
  proto_node r = ok_or r.node_id no_node_id >>= λ node_id. ok_or r.lat no_latitude >>= λ lat.
      ok_or r.lon no_longitude >>= λ lon.
      ok (record { id = node_id; coord = geo.coordinate lat lon; ch_level = r.ch_level })

module _ (F : Type 0) {C : Type 0} ⦃t : FloatText F⦄ ⦃geo : Geo F C⦄ where
  unfoldable pub from_str : Text → Nodes.Config → Outcome (ProtoNode C)
  unfolding read_node_params proto_node split_whitespace
  from_str line cfg =
      read_node_params (split_whitespace line) 0 cfg.categories (no_node_data {F = F})
      >>= proto_node
