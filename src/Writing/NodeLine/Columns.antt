-- ===== src/Writing/NodeLine/Columns.antt =====
-- The columns of a written node: each is the node's value for its category.
use osmgraphing.Prelude.{◌≡◌, ◌≢◌, refl, ap, Option, none, some, List, [], ◌∷◌, map, All}
use osmgraphing.Rust.Outcome.{ok}
use osmgraphing.Rust.Words.{IsWord, IsPlain, join}
use osmgraphing.Rust.Numerals.{display_usize, display_i64}
use osmgraphing.Rust.Numerals.RoundTrip.{
  display_usize-IsWord, display_i64-IsWord, display_usize-IsPlain, display_i64-IsPlain,
}
use osmgraphing.Rust.Float.{FloatText, RoundTrips}
use osmgraphing.Network.Geo.{Geo}
use osmgraphing.Network.Graph.{NodeIdx, Node, NodeAccessor, create}
use osmgraphing.Network.Street.Text.{Text, is_whitespace}
use osmgraphing.Configs.Metrics.{SimpleId}
use osmgraphing.Configs.Nodes
use osmgraphing.Configs.Edges.Ids.{AreDistinct}
use osmgraphing.Writing.Row.{ignore_str, write_column}
use osmgraphing.Writing.Row.Lookup.{text_eq_self, text_eq_ne, ids_by, write_row-lookup}
use osmgraphing.Writing.NodeLine.{write_node_data, write_node_line}

-- A category's column in the writing-config that names what is parsed.
abbrev pub column_of : Nodes.Category → Option SimpleId
column_of (Nodes.Category.meta info id) = some id
column_of (Nodes.Category.metric unit id) = some id
column_of Nodes.Category.ignored = none

-- What can be written and parsed: no node-index, and no height.
abbrev pub IsSupported : Nodes.Category → Type 0
IsSupported (Nodes.Category.meta Nodes.MetaInfo.node_idx id) = ⊥
IsSupported (Nodes.Category.metric Nodes.UnitInfo.height id) = ⊥
IsSupported _ = Unit

module _ (F : Type 0) {C : Type 0} ⦃t : FloatText F⦄ ⦃geo : Geo F C⦄ where
  -- The node's value for a category.
  abbrev pub node_text : Node C → Nodes.Category → Text
  node_text node (Nodes.Category.meta Nodes.MetaInfo.node_id id) = display_i64 node.id
  node_text node (Nodes.Category.meta Nodes.MetaInfo.node_idx id) = display_usize node.idx
  node_text node (Nodes.Category.meta Nodes.MetaInfo.ch_level id) = display_usize node.level
  node_text node (Nodes.Category.metric Nodes.UnitInfo.latitude id) =
      t.display_f64 (geo.lat node.coord)
  node_text node (Nodes.Category.metric Nodes.UnitInfo.longitude id) =
      t.display_f64 (geo.lon node.coord)
  node_text node (Nodes.Category.metric Nodes.UnitInfo.height id) = []
  node_text node Nodes.Category.ignored = ignore_str

  node_text-IsWord :
      RoundTrips t
      → (node : Node C) (c : Nodes.Category) → IsSupported c
      → IsWord (node_text node c)
  unfolding is_whitespace
  node_text-IsWord r node (Nodes.Category.meta Nodes.MetaInfo.node_id id) s =
      display_i64-IsWord node.id
  node_text-IsWord r node (Nodes.Category.meta Nodes.MetaInfo.node_idx id) s = absurd s
  node_text-IsWord r node (Nodes.Category.meta Nodes.MetaInfo.ch_level id) s =
      display_usize-IsWord node.level
  node_text-IsWord r node (Nodes.Category.metric Nodes.UnitInfo.latitude id) s =
      r.display_f64-IsWord (geo.lat node.coord)
  node_text-IsWord r node (Nodes.Category.metric Nodes.UnitInfo.longitude id) s =
      r.display_f64-IsWord (geo.lon node.coord)
  node_text-IsWord r node (Nodes.Category.metric Nodes.UnitInfo.height id) s = absurd s
  node_text-IsWord r node Nodes.Category.ignored s = ((λ h. cc), (refl, tt))

  pub node_text-IsPlain :
      RoundTrips t
      → (node : Node C) (c : Nodes.Category) → IsSupported c
      → IsPlain (node_text node c)
  node_text-IsPlain r node (Nodes.Category.meta Nodes.MetaInfo.node_id id) s =
      display_i64-IsPlain node.id
  node_text-IsPlain r node (Nodes.Category.meta Nodes.MetaInfo.node_idx id) s = absurd s
  node_text-IsPlain r node (Nodes.Category.meta Nodes.MetaInfo.ch_level id) s =
      display_usize-IsPlain node.level
  node_text-IsPlain r node (Nodes.Category.metric Nodes.UnitInfo.latitude id) s =
      r.display_f64-IsPlain (geo.lat node.coord)
  node_text-IsPlain r node (Nodes.Category.metric Nodes.UnitInfo.longitude id) s =
      r.display_f64-IsPlain (geo.lon node.coord)
  node_text-IsPlain r node (Nodes.Category.metric Nodes.UnitInfo.height id) s = absurd s
  node_text-IsPlain r node Nodes.Category.ignored s = refl

  pub node_texts-AreWords :
      RoundTrips t
      → (node : Node C) (cs : List Nodes.Category) → All IsSupported cs
      → All IsWord (map (node_text node) cs)
  node_texts-AreWords r node [] s = tt
  node_texts-AreWords r node (c ∷ cs) s =
      (node_text-IsWord r node c s.0, node_texts-AreWords r node cs s.1)

  module _ (a : NodeAccessor C) (idx : NodeIdx) (node : Node C)
      (made : create a idx ≡ ok node) where
    -- The first category with the id is the one that is written.
    head-written :
        (c : Nodes.Category) (cs : List Nodes.Category)
        → IsSupported c
        → write_column (write_node_data F a idx (c ∷ cs)) (column_of c) ≡ ok (node_text node c)
    unfolding write_column write_node_data
    head-written (Nodes.Category.meta Nodes.MetaInfo.node_id id) cs s =
        rw (text_eq_self id) (rw made refl)
    head-written (Nodes.Category.meta Nodes.MetaInfo.node_idx id) cs s = absurd s
    head-written (Nodes.Category.meta Nodes.MetaInfo.ch_level id) cs s =
        rw (text_eq_self id) (rw made refl)
    head-written (Nodes.Category.metric Nodes.UnitInfo.latitude id) cs s =
        rw (text_eq_self id) (rw made refl)
    head-written (Nodes.Category.metric Nodes.UnitInfo.longitude id) cs s =
        rw (text_eq_self id) (rw made refl)
    head-written (Nodes.Category.metric Nodes.UnitInfo.height id) cs s = absurd s
    head-written Nodes.Category.ignored cs s = refl

    write_node_data-skip :
        (h : Nodes.Category) (cs : List Nodes.Category) (id : SimpleId)
        → column_of h ≢ some id
        → write_node_data F a idx (h ∷ cs) id ≡ write_node_data F a idx cs id
    unfolding write_node_data
    write_node_data-skip (Nodes.Category.meta info i) cs id ne =
        rw (text_eq_ne i id (λ e. ne (ap some e))) refl
    write_node_data-skip (Nodes.Category.metric unit i) cs id ne =
        rw (text_eq_ne i id (λ e. ne (ap some e))) refl
    write_node_data-skip Nodes.Category.ignored cs id ne = refl

    -- The line is the columns with a space between each two.
    pub write_node_line-join :
        (cs : List Nodes.Category)
        → AreDistinct (ids_by column_of cs)
        → All IsSupported cs
        → write_node_line F cs (map column_of cs) a idx ≡ ok (join (map (node_text node) cs))
    unfolding write_node_line
    write_node_line-join cs d s =
        write_row-lookup column_of (node_text node) (write_node_data F a idx) IsSupported
          head-written write_node_data-skip cs d s
