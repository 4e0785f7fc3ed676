-- ===== src/Parsing/Fmi/NodeLines.antt =====
-- The lines of all nodes: they are written, and parsing them inserts the nodes in their order.
use osmgraphing.Prelude.{◌≡◌, refl, ap, ◌∙◌, true, List, [], ◌∷◌, map, All, AllPairs}
use osmgraphing.Rust.Outcome.{Outcome, ok, err, panic, collect, ◌>>=◌}
use osmgraphing.Rust.Words.{join, split_whitespace, split_whitespace-join}
use osmgraphing.Rust.Float.{FloatText, RoundTrips}
use osmgraphing.Network.Geo.{Geo, IsPair}
use osmgraphing.Network.Graph.{NodeIdx, Node, NodeAccessor, create}
use osmgraphing.Network.Street.Text.{Text}
use osmgraphing.Configs.Nodes
use osmgraphing.Configs.Edges.Ids.{AreDistinct}
use osmgraphing.Building.Protos.{NodeBuilder}
use osmgraphing.Building.Nodes.{insert_node}
use osmgraphing.Building.Nodes.Insertions.{insert_nodes}
use osmgraphing.Parsing.Config.{any, is_node_id, is_latitude, is_longitude}
use osmgraphing.Parsing.Lines.Counts.{IsFunctional, IsFunctional-join, HasColumns}
use osmgraphing.Parsing.NodeLine.RoundTrip.{Fits, kept, from_str-join}
use osmgraphing.Parsing.Fmi.{insert_node_line}
use osmgraphing.Parsing.Fmi.Loops.{each}
use osmgraphing.Writing.Row.Lookup.{ids_by}
use osmgraphing.Writing.NodeLine.{write_node_line}
use osmgraphing.Writing.NodeLine.Columns.{
  column_of, IsSupported, node_text, node_texts-AreWords, node_text-IsPlain, write_node_line-join,
}

-- The next step on a first component.
bind_first :
    {A B S : Type 0} (o : Outcome (A × B)) {next next' : A → Outcome S}
    → ((a : A) → next a ≡ next' a)
    → (o >>= (λ p. ok p.0) >>= next) ≡ (o >>= λ p. next' p.0)
bind_first (ok p) h = h p.0
bind_first (err msg) h = refl
bind_first panic h = refl

-- A configuration by which nodes can be parsed as they are written.
pub record DescribesNodes (cfg : Nodes.Config) : Type 0 where
  pub distinct : AreDistinct (ids_by column_of cfg.categories)
  pub supported : All IsSupported cfg.categories
  pub has_id : any is_node_id cfg.categories ≡ true
  pub has_latitude : any is_latitude cfg.categories ≡ true
  pub has_longitude : any is_longitude cfg.categories ≡ true

-- A category cannot be an id and a latitude.
two_categories :
    (cs : List Nodes.Category)
    → any is_node_id cs ≡ true
    → any is_latitude cs ≡ true
    → (c d : Nodes.Category) × (rest : List Nodes.Category) × (cs ≡ c ∷ d ∷ rest)
unfolding is_node_id is_latitude
two_categories [] h k = cc
two_categories (Nodes.Category.meta Nodes.MetaInfo.node_id id ∷ []) h k = cc
two_categories (Nodes.Category.meta Nodes.MetaInfo.node_idx id ∷ []) h k = cc
two_categories (Nodes.Category.meta Nodes.MetaInfo.ch_level id ∷ []) h k = cc
two_categories (Nodes.Category.metric unit id ∷ []) h k = cc
two_categories (Nodes.Category.ignored ∷ []) h k = cc
two_categories (c ∷ d ∷ rest) h k = (c, d, rest, refl)

module _ (F : Type 0) {C : Type 0} ⦃t : FloatText F⦄ ⦃geo : Geo F C⦄
    (cs : List Nodes.Category) where
  abbrev pub node_line : Node C → Text
  node_line node = join (map (node_text F node) cs)

  module _ (distinct : AreDistinct (ids_by column_of cs)) (supported : All IsSupported cs) where
    pub collect-node_lines :
        (a : NodeAccessor C) (idxs : List NodeIdx) (nodes : List (Node C))
        → AllPairs (λ idx node. create a idx ≡ ok node) idxs nodes
        → collect (write_node_line F cs (map column_of cs) a) idxs ≡ ok (map node_line nodes)
    collect-node_lines a [] [] h = refl
    collect-node_lines a [] (node ∷ nodes) h = absurd h
    collect-node_lines a (idx ∷ idxs) [] h = absurd h
    collect-node_lines a (idx ∷ idxs) (node ∷ nodes) h =
        rw (write_node_line-join F a idx node h.0 cs distinct supported)
          (rw (collect-node_lines a idxs nodes h.1) refl)

  module _ (texts : RoundTrips t) (supported : All IsSupported cs)
      (has_id : any is_node_id cs ≡ true) (has_lat : any is_latitude cs ≡ true) where
    line-columns :
        (node : Node C)
        → (a b : Text) × (words : List Text) × (split_whitespace (node_line node) ≡ a ∷ b ∷ words)
    line-columns node =
        let (c, d, rest, e) = two_categories cs has_id has_lat in
        (
          node_text F node c,
          node_text F node d,
          map (node_text F node) rest,
          split_whitespace-join (map (node_text F node) cs)
                (node_texts-AreWords F texts node cs supported)
              ∙ ap (map (node_text F node)) e,
        )

    pub node_lines-HasColumns :
        (node : Node C) (behind : List Text) → HasColumns (node_line node ∷ behind)
    node_lines-HasColumns node behind = line-columns node

    line-IsFunctional : (node : Node C) → IsFunctional (node_line node)
    line-IsFunctional node =
        let (c, d, rest, e) = two_categories cs has_id has_lat in
        let first : IsSupported c =
          (let all : All IsSupported (c ∷ d ∷ rest) = rw e at supported in all.0) in
        rw e (
          IsFunctional-join (node_text F node c) (map (node_text F node) (d ∷ rest))
            (node_text-IsPlain F texts node c first))

    pub node_lines-IsFunctional : (nodes : List (Node C)) → All IsFunctional (map node_line nodes)
    node_lines-IsFunctional [] = tt
    node_lines-IsFunctional (node ∷ nodes) = (line-IsFunctional node, node_lines-IsFunctional nodes)

    pub each-node_lines :
        any is_longitude cs ≡ true
        → IsPair geo
        → (nodes : List (Node C)) (b : NodeBuilder F C) → All Fits nodes
        → each (insert_node_line (record { categories = cs })) (map node_line nodes) b
          ≡ insert_nodes b (map (kept cs) nodes)
    unfolding insert_node_line
    each-node_lines has_lon pair [] b fits = refl
    each-node_lines has_lon pair (node ∷ nodes) b fits =
        rw (from_str-join F node texts fits.0 pair cs supported has_id has_lat has_lon) (
          bind_first (insert_node b (kept cs node))
            (λ s. each-node_lines has_lon pair nodes s fits.1))
