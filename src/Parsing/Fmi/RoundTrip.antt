-- ===== src/Parsing/Fmi/RoundTrip.antt =====
-- A written graph is parsed: the builder is the one that the graph's edges and nodes are inserted in.
use osmgraphing.Prelude.{
  ℕ, ◌+◌, ◌≡◌, ◌≤◌, refl, sym, ap, ◌∙◌, true, false, List, [], ◌∷◌, ◌++◌, map, length, length-map,
  All, All-append, AllPairs,
}
use osmgraphing.Rust.Outcome.{ok}
use osmgraphing.Rust.Vec.{range}
use osmgraphing.Rust.Numerals.{display_usize, max_usize}
use osmgraphing.Rust.Float.{Float64, FloatText, RoundTrips}
use osmgraphing.Network.Geo.{Geo, IsPair}
use osmgraphing.Network.Graph.{Node, Graph, nodes, node_count, create, fwd_edges, edge_count}
use osmgraphing.Network.Street.Text.{Text}
use osmgraphing.Building.Protos.{ProtoShortcut, NodeBuilder}
use osmgraphing.Building.Nodes.{new_builder, next_nodes, next_graph}
use osmgraphing.Building.Nodes.Insertions.{
  insert_nodes, insert_nodes_total, with_places, next_nodes-IsSized,
}
use osmgraphing.Parsing.Config.{Config, graph_config, check_config}
use osmgraphing.Parsing.Lines.{functional_lines}
use osmgraphing.Parsing.Lines.Counts.{IsFunctional, functional_lines-all}
use osmgraphing.Parsing.NodeLine.RoundTrip.{Fits, kept as kept_node}
use osmgraphing.Parsing.EdgeLine.Written.{DescribesEdges}
use osmgraphing.Parsing.EdgeLine.Held.{kept as kept_edge}
use osmgraphing.Parsing.Fmi.{parse}
use osmgraphing.Parsing.Fmi.NodeLines.{
  DescribesNodes, node_line, node_lines-HasColumns, node_lines-IsFunctional, each-node_lines,
}
use osmgraphing.Parsing.Fmi.Sections.{parse-sections}
use osmgraphing.Parsing.Fmi.Printed.{
  length-range, AllPairs-length, functional_lines-header, count-IsFunctional, written_edges-flag,
  write_nodes-lines,
}
use osmgraphing.Parsing.Fmi.EdgeLines.{insert_edges, IsStored, edge_lines}
use osmgraphing.Writing.Config.{GraphConfig, edges_of_graph}
use osmgraphing.Writing.NodeLine.{write_nodes}
use osmgraphing.Writing.NodeLine.Columns.{column_of as node_column_of}
use osmgraphing.Writing.EdgeLine.{write_edges_to_file}
use osmgraphing.Writing.EdgeLine.Columns.{column_of as edge_column_of}
use osmgraphing.Writing.Fmi.{header, written_dim, written_edges, write}

module _ {F C : Type 0} ⦃f : Float64 F⦄ ⦃t : FloatText F⦄ ⦃geo : Geo F C⦄ where
  -- A graph of a node or more and its configurations, by which it can be written and parsed.
  pub record IsRoundTrip (capacity : ℕ) (cfg : Config F) (writing_cfg : GraphConfig)
      (graph : Graph F C) : Type 0 where
    pub checked : check_config capacity cfg ≡ ok tt
    pub describes_nodes : DescribesNodes cfg.nodes
    pub describes_edges : DescribesEdges cfg.edges
    pub node_columns : writing_cfg.nodes.ids ≡ map node_column_of cfg.nodes.categories
    pub edge_columns : writing_cfg.edges.ids ≡ map edge_column_of cfg.edges.categories
    pub plain : writing_cfg.edges.is_denormalizing ≡ false
    pub with_shortcuts : writing_cfg.edges.is_writing_shortcuts ≡ true
    pub dim_fits : written_dim cfg.edges.metrics.ids writing_cfg.edges.ids ≤ max_usize
    pub counts_fit : 3 + node_count (nodes graph) + edge_count (fwd_edges graph) ≤ max_usize

  module _ (debug : List Text → Text) where
    -- If displayed floats are words that are parsed as the same floats, a coordinate consists of
    -- its latitude and its longitude, the configurations pass the parser's check, name distinct
    -- columns that can be written and parsed, write the parsed columns, shortcuts included and
    -- without denormalising, the numbers of nodes and edges and the columns' count fit into 64
    -- bits, and a graph of at least one node holds the nodes and the edges, whose numbers fit as
    -- well, then the graph is written to an fmi-file, inserting the graph's edges and then its
    -- nodes in their order, with what the columns keep of them, returns a builder, and parsing the
    -- file gives this builder.
    pub parse-write :
        RoundTrips t
        → IsPair geo
        → (capacity : ℕ) (cfg : Config F) (writing_cfg : GraphConfig) (graph : Graph F C)
        → IsRoundTrip capacity cfg writing_cfg graph
        → (node : Node C) (others : List (Node C))
        → AllPairs
            (λ idx node. create (nodes graph) idx ≡ ok node)
            (range 0 (node_count (nodes graph)))
            (node ∷ others)
        → All Fits (node ∷ others)
        → (edges : List (ProtoShortcut F))
        → AllPairs (IsStored graph cfg.edges) (range 0 (edge_count (fwd_edges graph))) edges
        → (lines : List Text) × (b : NodeBuilder F C) × (write debug cfg writing_cfg graph
            ≡ ok lines)
          × (insert_nodes
                (next_nodes (
                  insert_edges
                    (new_builder (graph_config cfg))
                    (map (kept_edge cfg.edges.categories) edges)))
                (map (kept_node cfg.nodes.categories) (node ∷ others))
              ≡ ok b)
          × (parse capacity cfg lines ≡ ok (next_graph b))
    unfolding write edges_of_graph write_edges_to_file
    parse-write texts pair capacity cfg writing_cfg graph r node others made fits edges stored =
        let d = r.describes_nodes in
        let cs = cfg.nodes.categories in
        let w = edges_of_graph writing_cfg in
        let node_lines = map (node_line F cs) (node ∷ others) in
        let section =
          edge_lines graph cfg.edges w texts r.describes_edges r.edge_columns r.plain
            r.with_shortcuts (range 0 (edge_count (fwd_edges graph))) edges stored in
        let n = node_count (nodes graph) in
        let m = edge_count (fwd_edges graph) in
        let dim = written_dim cfg.edges.metrics.ids writing_cfg.edges.ids in
        let counts = display_usize dim ∷ display_usize n ∷ display_usize m ∷ [] in
        let lines =
          header debug cfg.edges.metrics.are_normalized writing_cfg
          ++ (counts ++ (node_lines ++ section.lines)) in
        let count : written_edges (fwd_edges graph) writing_cfg.edges.is_writing_shortcuts
              (range 0 m)
            ≡ ok m =
          written_edges-flag graph cfg.edges writing_cfg.edges.is_writing_shortcuts (range 0 m)
            edges r.with_shortcuts stored
          ∙ ap ok (length-range m) in
        let points : write_nodes F cs writing_cfg.nodes.ids (nodes graph) ≡ ok node_lines =
          write_nodes-lines F cs (nodes graph) (node ∷ others) writing_cfg.nodes.ids r.node_columns
            d.distinct d.supported made in
        let written : write debug cfg writing_cfg graph ≡ ok lines =
          rw count (rw points (rw section.written refl)) in
        let as_many_nodes : length node_lines ≡ n =
          length-map (node ∷ others) (node_line F cs)
          ∙ sym (
              AllPairs-length (λ idx node. create (nodes graph) idx ≡ ok node) (range 0 n)
                (node ∷ others) made)
          ∙ length-range n in
        let as_many_edges : length section.lines ≡ m = section.as_many ∙ length-range m in
        let functional : All IsFunctional (counts ++ (node_lines ++ section.lines)) = (
          count-IsFunctional dim,
          (
            count-IsFunctional n,
            (
              count-IsFunctional m,
              All-append IsFunctional node_lines section.lines
                  (node_lines-IsFunctional F cs texts d.supported d.has_id d.has_latitude
                    (node ∷ others))
                  section.functional,
            ),
          ),
        ) in
        let sections : functional_lines lines
            ≡ display_usize dim
                ∷ display_usize (length node_lines)
                ∷ display_usize (length section.lines)
                ∷ node_lines
              ++ section.lines =
          functional_lines-header debug cfg.edges.metrics.are_normalized writing_cfg
            (counts ++ (node_lines ++ section.lines))
          ∙ functional_lines-all (counts ++ (node_lines ++ section.lines)) functional
          ∙ (rw (as_many_nodes, as_many_edges) refl) in
        let inserted_edges =
          insert_edges (new_builder (graph_config cfg))
            (map (kept_edge cfg.edges.categories) edges) in
        let (coords, levels, many, inserted) =
          insert_nodes_total (next_nodes {C = C} inserted_edges)
            (map (kept_node cs) (node ∷ others)) (next_nodes-IsSized C inserted_edges) in
        let b = with_places (next_nodes {C = C} inserted_edges) coords levels in
        (
          lines,
          b,
          written,
          inserted,
          parse-sections capacity cfg lines dim node_lines section.lines inserted_edges b r.checked
              sections r.dim_fits (rw (as_many_nodes, as_many_edges) r.counts_fit)
              (node_lines-HasColumns F cs texts d.supported d.has_id d.has_latitude node
                (map (node_line F cs) others ++ section.lines))
              (section.inserted (new_builder (graph_config cfg)))
              (each-node_lines F cs texts d.supported d.has_id d.has_latitude d.has_longitude pair
                  (node ∷ others) (next_nodes inserted_edges) fits
                ∙ inserted),
        )
