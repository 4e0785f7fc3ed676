-- ===== src/Parsing/NodeLine/RoundTrip.antt =====
-- A written node is parsed as a node with the same id, coordinate and level.
use osmgraphing.Prelude.{
  suc, ◌≡◌, ◌≤◌, refl, ap, ◌∙◌, true, false, Bool, none, some, List, [], ◌∷◌, ◌++◌, map, All, arith,
  length, get_elem?, length-append, if◌then◌else◌,
}
use mathlib.Core.List.{append_assoc}
use osmgraphing.Rust.Outcome.{ok}
use osmgraphing.Rust.Words.{split_whitespace-join, join}
use osmgraphing.Rust.Numerals.{max_usize}
use osmgraphing.Rust.Numerals.RoundTrip.{IsI64, parse_usize-display, parse_i64-display}
use osmgraphing.Rust.Float.{FloatText, RoundTrips}
use osmgraphing.Network.Geo.{Geo, IsPair}
use osmgraphing.Network.Graph.{NodeIdx, Node, NodeAccessor, create}
use osmgraphing.Network.Street.Text.{Text}
use osmgraphing.Configs.Nodes
use osmgraphing.Configs.Edges.Ids.{AreDistinct}
use osmgraphing.Building.Protos.{ProtoNode}
use osmgraphing.Parsing.Config.{any, is_node_id, is_latitude, is_longitude}
use osmgraphing.Parsing.NodeLine.{
  NodeData, no_node_data, read_node_param, read_node_metric, read_node_params, proto_node, from_str,
}
use osmgraphing.Writing.Row.Lookup.{ids_by}
use osmgraphing.Writing.NodeLine.{write_node_line}
use osmgraphing.Writing.NodeLine.Columns.{
  column_of, IsSupported, node_text, node_texts-AreWords, write_node_line-join,
}

abbrev pub is_level : Nodes.Category → Bool
is_level (Nodes.Category.meta Nodes.MetaInfo.ch_level id) = true
is_level _ = false

-- The param behind those of `front`.
pub get_elem?-behind :
    {A : Type 0} (front : List A) (x : A) (rest : List A)
    → get_elem? (front ++ x ∷ rest) (length front) ≡ some x
get_elem?-behind [] x rest = refl
get_elem?-behind (y ∷ front) x rest = get_elem?-behind front x rest

-- The fields of a node fit into the program's numbers.
pub record Fits {C : Type 0} (node : Node C) : Type 0 where
  pub id_fits : IsI64 node.id
  pub level_fits : node.level ≤ max_usize

-- What the columns of the categories keep of a node.
abbrev pub kept : {C : Type 0} → List Nodes.Category → Node C → ProtoNode C
kept cs node = record {
  id = node.id;
  coord = node.coord;
  ch_level = if any is_level cs then some node.level else none;
}

module _ (F : Type 0) {C : Type 0} ⦃t : FloatText F⦄ ⦃geo : Geo F C⦄ (node : Node C) where
  -- What a category's column sets.
  abbrev set_by : Nodes.Category → NodeData F → NodeData F
  set_by (Nodes.Category.meta Nodes.MetaInfo.node_id id) r = record r { node_id = some node.id }
  set_by (Nodes.Category.meta Nodes.MetaInfo.node_idx id) r = r
  set_by (Nodes.Category.meta Nodes.MetaInfo.ch_level id) r = record r {
    ch_level = some node.level;
  }
  set_by (Nodes.Category.metric Nodes.UnitInfo.latitude id) r = record r {
    lat = some (geo.lat node.coord);
  }
  set_by (Nodes.Category.metric Nodes.UnitInfo.longitude id) r = record r {
    lon = some (geo.lon node.coord);
  }
  set_by (Nodes.Category.metric Nodes.UnitInfo.height id) r = r
  set_by Nodes.Category.ignored r = r

  -- What all columns set.
  abbrev all_set : List Nodes.Category → NodeData F → NodeData F
  all_set cs r = record {
    node_id = if any is_node_id cs then some node.id else r.node_id;
    lat = if any is_latitude cs then some (geo.lat node.coord) else r.lat;
    lon = if any is_longitude cs then some (geo.lon node.coord) else r.lon;
    ch_level = if any is_level cs then some node.level else r.ch_level;
  }

  all_set-cons :
      (c : Nodes.Category) (cs : List Nodes.Category) (r : NodeData F)
      → all_set cs (set_by c r) ≡ all_set (c ∷ cs) r
  unfolding is_node_id is_latitude is_longitude
  all_set-cons (Nodes.Category.meta Nodes.MetaInfo.node_id id) cs r = ground arith
  all_set-cons (Nodes.Category.meta Nodes.MetaInfo.node_idx id) cs r = refl
  all_set-cons (Nodes.Category.meta Nodes.MetaInfo.ch_level id) cs r = ground arith
  all_set-cons (Nodes.Category.metric Nodes.UnitInfo.latitude id) cs r = ground arith
  all_set-cons (Nodes.Category.metric Nodes.UnitInfo.longitude id) cs r = ground arith
  all_set-cons (Nodes.Category.metric Nodes.UnitInfo.height id) cs r = refl
  all_set-cons Nodes.Category.ignored cs r = refl

  module _ (texts : RoundTrips t) (fits : Fits node) where
    read_node_param-text :
        (c : Nodes.Category) (params : List Text) (r : NodeData F)
        → IsSupported c
        → read_node_param c params (node_text F node c) r ≡ ok (set_by c r)
    unfolding read_node_param read_node_metric
    read_node_param-text (Nodes.Category.meta Nodes.MetaInfo.node_id id) params r s =
        rw (parse_i64-display node.id fits.id_fits) refl
    read_node_param-text (Nodes.Category.meta Nodes.MetaInfo.node_idx id) params r s = absurd s
    read_node_param-text (Nodes.Category.meta Nodes.MetaInfo.ch_level id) params r s =
        rw (parse_usize-display node.level fits.level_fits) refl
    read_node_param-text (Nodes.Category.metric Nodes.UnitInfo.latitude id) params r s =
        rw (texts.parse_f64-display (geo.lat node.coord), read_node_metric) refl
    read_node_param-text (Nodes.Category.metric Nodes.UnitInfo.longitude id) params r s =
        rw (texts.parse_f64-display (geo.lon node.coord), read_node_metric) refl
    read_node_param-text (Nodes.Category.metric Nodes.UnitInfo.height id) params r s = absurd s
    read_node_param-text Nodes.Category.ignored params r s = refl

    read_node_params-texts :
        (front : List Text) (cs : List Nodes.Category) (r : NodeData F)
        → All IsSupported cs
        → read_node_params (front ++ map (node_text F node) cs) (length front) cs r
          ≡ ok (all_set cs r)
    unfolding read_node_params
    read_node_params-texts front [] r s = refl
    read_node_params-texts front (c ∷ cs) r s =
        let text = node_text F node c in
        let rest = map (node_text F node) cs in
        let params = front ++ text ∷ rest in
        let ih = read_node_params-texts (front ++ text ∷ []) cs (set_by c r) s.1 in
        let same : (front ++ text ∷ []) ++ rest ≡ params = append_assoc front (text ∷ []) rest in
        let next : length (front ++ text ∷ []) ≡ suc (length front) =
          omega (arith, length-append front (text ∷ [])) in
        rw (get_elem?-behind front text rest) (
          rw (read_node_param-text c params r s.0)
            (rw (same, next) at ih ∙ ap ok (all_set-cons c cs r)))

    pub from_str-join :
        IsPair geo
        → (cs : List Nodes.Category) → All IsSupported cs
        → any is_node_id cs ≡ true
        → any is_latitude cs ≡ true
        → any is_longitude cs ≡ true
        → from_str F (join (map (node_text F node) cs)) (record { categories = cs })
          ≡ ok (kept cs node)
    unfolding from_str proto_node
    from_str-join pair cs s has_id has_lat has_lon =
        rw
          (split_whitespace-join (map (node_text F node) cs)
            (node_texts-AreWords F texts node cs s))
          (rw (read_node_params-texts [] cs no_node_data s)
            (rw (has_id, has_lat, has_lon) (rw (pair node.coord) refl)))

    -- If displayed floats are words that are parsed as the same floats, a coordinate consists of
    -- its latitude and its longitude, the categories have distinct ids, contain neither the node's
    -- index nor its height, and have the id, the latitude and the longitude, then the line written
    -- with the columns of these categories for a node whose numbers fit into 64 bits is parsed as
    -- its id, its coordinate and, if there is a category for it, its level.
    pub from_str-write_node_line :
        IsPair geo
        → (a : NodeAccessor C) (idx : NodeIdx) → create a idx ≡ ok node
        → (cs : List Nodes.Category) → AreDistinct (ids_by column_of cs)
        → All IsSupported cs
        → any is_node_id cs ≡ true
        → any is_latitude cs ≡ true
        → any is_longitude cs ≡ true
        → (line : Text) × (write_node_line F cs (map column_of cs) a idx ≡ ok line)
          × (from_str F line (record { categories = cs }) ≡ ok (kept cs node))
    from_str-write_node_line pair a idx made cs d s has_id has_lat has_lon = (
      join (map (node_text F node) cs),
      write_node_line-join F a idx node made cs d s,
      from_str-join pair cs s has_id has_lat has_lon,
    )
