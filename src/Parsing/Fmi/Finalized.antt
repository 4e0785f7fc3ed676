-- ===== src/Parsing/Fmi/Finalized.antt =====
-- What was parsed without an error can be finalized.
use osmgraphing.Prelude.{
  ℕ, ◌+◌, ◌≡◌, ◌<◌, refl, sym, ap, subst, ◌∙◌, inl, inr, Option, some, none, List, [], ◌∷◌, ◌++◌,
  length, All, All-append, Bool-cases,
}
use osmgraphing.Rust.Outcome.{Outcome, ok, ok_inj, Returns, returned, ◌>>=◌}
use osmgraphing.Rust.Float.{Float64, FloatText}
use osmgraphing.Network.Geo.{Geo}
use osmgraphing.Network.Graph
use osmgraphing.Network.Street.Text.{Text}
use osmgraphing.Configs.Nodes
use osmgraphing.Configs.Edges
use osmgraphing.Building.Protos.{ProtoEdge, ProtoNode, EdgeBuilder, NodeBuilder, GraphBuilder}
use osmgraphing.Building.Nodes.{
  new_builder, insert_edge, insert_with, insert_node, next_nodes, next_graph,
}
use osmgraphing.Building.Nodes.Edges.{IsBuilt, new_builder-IsBuilt, insert_edge-IsBuilt}
use osmgraphing.Building.Finalize.{ChunkSizes, finalize}
use osmgraphing.Building.Finalize.Corrected.{AreBelow}
use osmgraphing.Building.Finalize.Built.{finalize_built}
use osmgraphing.Building.Nodes.Insertions.{
  insert_nodes, insert_nodes_total, insert_nodes-snoc, with_places, next_nodes-IsSized,
}
use osmgraphing.Parsing.Config.{Config, graph_config}
use osmgraphing.Parsing.Lines.{Range, in_range, functional_lines, preprocess}
use osmgraphing.Parsing.EdgeLine.{try_from_str}
use osmgraphing.Parsing.EdgeLine.Columns.{metric_ids_of}
use osmgraphing.Parsing.EdgeLine.Dimension.{try_from_str-length}
use osmgraphing.Parsing.NodeLine.{from_str}
use osmgraphing.Parsing.Fmi.{
  each_line, insert_edge_line, insert_node_line, parse_ways, parse_nodes, parse,
}

-- What every step keeps holds at the loop's end.
each_line-keeps :
    {S : Type 0} (P : S → Type 0) (step : Text → S → Outcome S) (r : Range)
    → ((line : Text) (s s' : S) → P s → step line s ≡ ok s' → P s')
    → (n : ℕ) (lines : List Text) (s s' : S) → P s
    → each_line step r n lines s ≡ ok s'
    → P s'
unfolding each_line
each_line-keeps P step r keeps n [] s s' p h = subst P (ok_inj h) p
each_line-keeps P step r keeps n (line ∷ lines) s s' p h = elim (Bool-cases (in_range r n)) [
  | inl e ↦
      let (s'', later, one) =
        returned s' (step line s) (λ s''. each_line step r (n + 1) lines s'') (rw e at h) in
      each_line-keeps P step r keeps (n + 1) lines s'' s' (keeps line s s'' p one) later
  | inr e ↦ each_line-keeps P step r keeps (n + 1) lines s s' p (rw e at h)
]

module _ {F : Type 0} where
  -- A builder whose edges have as many metrics as its configuration says.
  pub record HasDim (cfg : Graph.Config) (b : EdgeBuilder F) : Type 0 where
    pub built : IsBuilt b
    pub same_cfg : b.cfg ≡ cfg
    pub dims : All (λ a. length a.metrics ≡ cfg.dim) b.proto_edges

  insert_with-dims :
      (b : EdgeBuilder F) (p : ProtoEdge F) (sc : Option (ℕ × ℕ)) (n : ℕ)
      → length p.metrics ≡ n
      → All (λ a. length a.metrics ≡ n) b.proto_edges
      → All (λ a. length a.metrics ≡ n) (insert_with b p sc).proto_edges
  unfolding insert_with
  insert_with-dims b p none n e h = All-append _ b.proto_edges _ h (e, tt)
  insert_with-dims b p (some sc) n e h = All-append _ b.proto_edges _ h (e, tt)

  insert_with-cfg :
      (b : EdgeBuilder F) (p : ProtoEdge F) (sc : Option (ℕ × ℕ)) → (insert_with b p sc).cfg ≡ b.cfg
  unfolding insert_with
  insert_with-cfg b p none = refl
  insert_with-cfg b p (some sc) = refl

module _ {F : Type 0} ⦃t : FloatText F⦄ where
  parse_ways-HasDim :
      (r : Range) (cs : List Edges.Category) (lines : List Text) (cfg : Graph.Config)
      (b : EdgeBuilder F)
      → cfg.dim ≡ length (metric_ids_of cs)
      → parse_ways r cs lines (new_builder cfg) ≡ ok b
      → HasDim cfg b
  unfolding parse_ways insert_edge_line insert_edge new_builder
  parse_ways-HasDim r cs lines cfg b dim h =
      each_line-keeps (HasDim cfg) (insert_edge_line cs) r
        (λ line s s' p one.
          let (proto, same, e) = returned s' (try_from_str line cs) _ one in
          subst (HasDim cfg) (ok_inj same) (record {
            built = insert_edge-IsBuilt s proto p.built;
            same_cfg = insert_with-cfg s proto.proto_edge proto.sc_edges ∙ p.same_cfg;
            dims =
                insert_with-dims s proto.proto_edge proto.sc_edges cfg.dim
                  (try_from_str-length line cs proto e ∙ sym dim) p.dims;
          }))
        0 (functional_lines lines) (new_builder cfg) b
        (record { built = new_builder-IsBuilt cfg; same_cfg = refl; dims = tt }) h

module _ {F C : Type 0} where
  -- What the insertion of nodes leaves alone.
  abbrev SameEdges : EdgeBuilder F → NodeBuilder F C → Type 0
  SameEdges edges b =
      (b.proto_edges ≡ edges.proto_edges) × (b.proto_shortcuts ≡ edges.proto_shortcuts)

  insert_nodes-SameEdges :
      (edges : EdgeBuilder F) (ps : List (ProtoNode C)) (b : NodeBuilder F C)
      → insert_nodes (next_nodes edges) ps ≡ ok b
      → SameEdges edges b
  unfolding next_nodes
  insert_nodes-SameEdges edges ps b h =
      let (coords, levels, many, inserted) =
        insert_nodes_total (next_nodes {C = C} edges) ps (next_nodes-IsSized C edges) in
      let same : b ≡ with_places (next_nodes edges) coords levels = ok_inj (sym h ∙ inserted) in
      (ap (λ b. b.proto_edges) same, ap (λ b. b.proto_shortcuts) same)

  inserted-below :
      (edges : EdgeBuilder F) (ps : List (ProtoNode C)) (b : NodeBuilder F C)
      → insert_nodes (next_nodes edges) ps ≡ ok b
      → All (AreBelow (length (next_graph b).proto_edges)) (next_graph b).proto_shortcuts
      → All (AreBelow (length edges.proto_edges)) edges.proto_shortcuts
  unfolding next_graph
  inserted-below edges ps b e h =
      let (edges', scs) = insert_nodes-SameEdges edges ps b e in
      subst (λ es. All (AreBelow (length es)) edges.proto_shortcuts) edges'
        (subst (λ scs. All (AreBelow (length b.proto_edges)) scs) scs h)

module _ {F C : Type 0} ⦃f : Float64 F⦄ ⦃t : FloatText F⦄ ⦃geo : Geo F C⦄ where
  parse_nodes-inserts :
      (r : Range) (cfg : Nodes.Config) (lines : List Text) (b b' : NodeBuilder F C)
      → parse_nodes r cfg lines b ≡ ok b'
      → (ps : List (ProtoNode C)) × (insert_nodes b ps ≡ ok b')
  unfolding parse_nodes insert_node_line
  parse_nodes-inserts r cfg lines b b' h =
      each_line-keeps (λ s. (ps : List (ProtoNode C)) × (insert_nodes b ps ≡ ok s))
        (insert_node_line cfg) r
        (λ line s s' (ps, same) one.
          let (p, inserts, e) =
            returned s' (from_str F line cfg) (λ p. insert_node s p >>= λ inserted. ok inserted.0)
              one in
          let (inserted, last, e') =
            returned s' (insert_node s p) (λ inserted. ok inserted.0) inserts in
          (ps ++ p ∷ [], insert_nodes-snoc b s ps p inserted same e' ∙ last))
        0 (functional_lines lines) b b' ([], refl) h

  -- If the chunks of both loops have a positive size, the configuration has as many units as its
  -- categories have metrics, a file is parsed without an error or a panic, and the shortcuts that
  -- it contains consist of edges of the file, then `finalize` returns a graph or an error for the
  -- parsed builder: it does not panic.
  pub parse-finalize :
      (sizes : ChunkSizes) (capacity : ℕ) (cfg : Config F) (lines : List Text)
      (b : GraphBuilder F C)
      → 0 < sizes.proto_edges_b
      → 0 < sizes.proto_shortcuts
      → length cfg.edges.metrics.units ≡ length (metric_ids_of cfg.edges.categories)
      → parse capacity cfg lines ≡ ok b
      → All (AreBelow (length b.proto_edges)) b.proto_shortcuts
      → Returns (finalize sizes b)
  unfolding parse
  parse-finalize sizes capacity cfg lines b positive_b positive_s dims h below =
      let (parser, h', e) = returned b (preprocess capacity cfg lines) _ h in
      let (edges, h'', e') =
        returned b
          (parse_ways parser.edge_lines cfg.edges.categories lines (new_builder (graph_config cfg)))
          _ h' in
      let (nodes, last, e'') =
        returned b (parse_nodes parser.node_lines cfg.nodes lines (next_nodes edges))
          (λ nodes. ok (next_graph nodes)) h'' in
      let built =
        parse_ways-HasDim parser.edge_lines cfg.edges.categories lines (graph_config cfg) edges dims
          e' in
      let (ps, same) =
        parse_nodes-inserts parser.node_lines cfg.nodes lines (next_nodes edges) nodes e'' in
      let (nodes', same', returns) =
        finalize_built sizes edges ps positive_b positive_s built.built
          (inserted-below edges ps nodes same (
            subst (λ b. All (AreBelow (length b.proto_edges)) b.proto_shortcuts) (sym (ok_inj last))
              below))
          (subst (λ c. All (λ a. length a.metrics ≡ c.dim) edges.proto_edges) (sym built.same_cfg)
            built.dims) in
      subst (λ b. Returns (finalize sizes b))
        (ap next_graph (ok_inj (sym same' ∙ same)) ∙ ok_inj last) returns
