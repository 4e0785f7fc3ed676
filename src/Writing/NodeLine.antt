-- ===== src/Writing/NodeLine.antt =====
-- io/writing/network/graph/fmi.rs: the loop over the nodes.
pub mod Columns
use osmgraphing.Prelude.{ℕ, Option, List, [], ◌∷◌, if◌then◌else◌}
use osmgraphing.Rust.Outcome.{Outcome, ok, err, panic, ◌>>=◌, collect, unknown_node_data}
use osmgraphing.Rust.Numerals.{display_usize, display_i64}
use osmgraphing.Rust.Float.{FloatText}
use osmgraphing.Rust.Vec.{range}
use osmgraphing.Network.Geo.{Geo}
use osmgraphing.Network.Graph.{NodeIdx, Node, NodeAccessor, create, node_count}
use osmgraphing.Network.Street.Text.{Text, text_eq}
use osmgraphing.Configs.Metrics.{SimpleId}
use osmgraphing.Configs.Nodes
use osmgraphing.Writing.Row.{write_row}

unfoldable pub node_info : {C : Type 0} → Nodes.MetaInfo → Node C → Text
node_info Nodes.MetaInfo.node_id node = display_i64 node.id
node_info Nodes.MetaInfo.node_idx node = display_usize node.idx
node_info Nodes.MetaInfo.ch_level node = display_usize node.level

module _ (F : Type 0) {C : Type 0} ⦃t : FloatText F⦄ ⦃geo : Geo F C⦄ where
  unfoldable pub node_unit : Nodes.UnitInfo → Node C → Outcome Text
  node_unit Nodes.UnitInfo.latitude node = ok (t.display_f64 (geo.lat node.coord))
  node_unit Nodes.UnitInfo.longitude node = ok (t.display_f64 (geo.lon node.coord))
  node_unit Nodes.UnitInfo.height node = panic

  -- The loop over the categories, to the first with the id.
  unfoldable pub write_node_data :
      NodeAccessor C → NodeIdx → List Nodes.Category → SimpleId → Outcome Text
  unfolding node_info node_unit text_eq
  write_node_data nodes node_idx [] next_id = err (unknown_node_data next_id)
  write_node_data nodes node_idx (Nodes.Category.meta info id ∷ categories) next_id =
      let rest = write_node_data nodes node_idx categories next_id in
      if text_eq id next_id
      then (create nodes node_idx >>= λ node. ok (node_info info node))
      else rest
  write_node_data nodes node_idx (Nodes.Category.metric unit id ∷ categories) next_id =
      let rest = write_node_data nodes node_idx categories next_id in
      if text_eq id next_id then (create nodes node_idx >>= node_unit unit) else rest
  write_node_data nodes node_idx (Nodes.Category.ignored ∷ categories) next_id =
      write_node_data nodes node_idx categories next_id

  unfoldable pub write_node_line :
      List Nodes.Category → List (Option SimpleId) → NodeAccessor C → NodeIdx → Outcome Text
  unfolding write_row write_node_data
  write_node_line categories ids nodes node_idx =
      write_row (write_node_data nodes node_idx categories) ids

  unfoldable pub write_nodes :
      List Nodes.Category → List (Option SimpleId) → NodeAccessor C → Outcome (List Text)
  unfolding write_node_line node_count
  write_nodes categories ids nodes =
      collect (write_node_line categories ids nodes) (range 0 (node_count nodes))
