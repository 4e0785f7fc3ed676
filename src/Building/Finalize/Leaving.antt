-- ===== src/Building/Finalize/Leaving.antt =====
-- In a finished graph the edges that leave a node lead where inserted edges lead.
use osmgraphing.Prelude.{◌<◌, ◌≤◌, ◌≡◌, sym, ap, ◌∙◌, ◌↔◌, some, List, map, In, IsSorted, subst}
use osmgraphing.Rust.Outcome.{ok, returned}
use osmgraphing.Rust.Float.{Float64}
use osmgraphing.Network.Graph.{
  NodeIdx, Graph, NodeAccessor, HalfEdge, nodes, fwd_edges, dst_idx, starting_from,
}
use osmgraphing.Building.Protos.{ProtoEdgeA, ProtoEdgeB, ProtoEdgeC, GraphBuilder}
use osmgraphing.Building.Offsets.{Forward, build_forward}
use osmgraphing.Building.Offsets.Loops.{srcs}
use osmgraphing.Building.Finalize.{
  ChunkSizes, unique_edges, build_metrics, build_arrays, finalize, add_nodes,
}
use osmgraphing.Building.Normalize.{normalize}
use osmgraphing.Building.Finalize.Ends.{Ends, ends, ends_c, Joins}
use osmgraphing.Building.Finalize.Unique.{build_metrics-ends, unique_edges-ends}
use osmgraphing.Building.Finalize.Keeps.{Keeps, build_arrays-Keeps, normalize-Keeps}
use osmgraphing.Building.Finalize.Reading.{srcs-ends, srcs-ends_b, starting_from-ends}

module _ {F C : Type 0} where
  -- The inserted edges between two nodes.
  abbrev pub Inserted : GraphBuilder F C → Graph F C → Ends → Type 0
  Inserted b g p = (a : ProtoEdgeA F) × In a b.proto_edges × Joins (nodes g) a p

  -- The leaving half-edges of a node lead to where inserted edges lead.
  abbrev pub LeadsAsInserted : GraphBuilder F C → Graph F C → NodeIdx → Type 0
  LeadsAsInserted b g u =
      (hs : List (HalfEdge F)) × (starting_from (fwd_edges g) u ≡ ok hs)
      × ((v : NodeIdx)
          → ((h : HalfEdge F) × In h hs × (dst_idx (fwd_edges g) h.idx ≡ ok v))
            ↔ Inserted b g (u, v))

  arrays-LeadsAsInserted :
      (b : GraphBuilder F C) (g : Graph F C) (fwd : Forward) (es : List ProtoEdgeC)
      (unique : List (ProtoEdgeB F)) (n : NodeAccessor C) (u : NodeIdx) (p : Ends)
      → Keeps fwd n g
      → build_forward es ≡ some fwd
      → map ends_c es ≡ map ends unique
      → IsSorted (map (λ e. e.src_idx) unique)
      → ((q : Ends)
          → In q (map ends unique) ↔ ((a : ProtoEdgeA F) × In a b.proto_edges × Joins n a q))
      → Inserted b g p
      → u ≤ p.0
      → LeadsAsInserted b g u
  unfolding fwd_edges
  arrays-LeadsAsInserted b g fwd es unique n u p keeps built same sorted joined inserted low =
      let at_nodes = λ (q : Ends).
        subst
          (λ m. In q (map ends unique) ↔ ((a : ProtoEdgeA F) × In a b.proto_edges × Joins m a q))
          (sym keeps.nodes_of) (joined q) in
      let ordered : IsSorted (srcs es) =
        subst IsSorted
          (srcs-ends_b unique ∙ ap (map (λ (q : Ends). q.0)) (sym same) ∙ sym (srcs-ends es))
          sorted in
      let there = subst (In p) (sym same) ((at_nodes p).1 inserted) in
      let (hs, reads, leads) =
        starting_from-ends (fwd_edges g) es fwd u p.0 p.1 ordered built keeps.offsets keeps.mapping
          keeps.leads there low in
      (
        hs,
        reads,
        λ v. (
          λ m. (at_nodes (u, v)).0 (subst (In (u, v)) same ((leads v).0 m)),
          λ m. (leads v).1 (subst (In (u, v)) (sym same) ((at_nodes (u, v)).1 m)),
        ),
      )

module _ {F : Type 0} ⦃f : Float64 F⦄ {C : Type 0} where
  -- If the chunks of both loops have a positive size and `finalize` succeeds with a graph, then
  -- for every node not beyond the source of some inserted edge, `starting_from` returns normally
  -- on the graph's forward-edges, and one of its half-edges leads to a node v exactly if an edge
  -- was inserted whose source-id and destination-id the search among the node-ids finds at this
  -- node and at v.
  pub finalize_leaving :
      (sizes : ChunkSizes) (b : GraphBuilder F C) (g : Graph F C) (u : NodeIdx) (p : Ends)
      → 0 < sizes.proto_edges_b
      → 0 < sizes.proto_shortcuts
      → finalize sizes b ≡ ok g
      → Inserted b g p
      → u ≤ p.0
      → LeadsAsInserted b g u
  unfolding finalize
  finalize_leaving sizes b g u p positive_b positive_s h inserted low =
      let (graph, h1, added) = returned g (add_nodes b) _ h in
      let (unique, h2, made) = returned g (unique_edges sizes.proto_edges_b graph b) _ h1 in
      let (s, h3, stored) =
        returned g (build_metrics sizes.proto_shortcuts unique.0 unique.1) _ h2 in
      let (g', h4, arrays) = returned g (build_arrays graph s) normalize h3 in
      let (fwd, built, keeps) = build_arrays-Keeps graph g' s arrays in
      let (sorted, joined) = unique_edges-ends sizes.proto_edges_b graph b unique positive_b made in
      arrays-LeadsAsInserted b g fwd s.new_proto_edges unique.0 (nodes graph) u p
        (normalize-Keeps fwd (nodes graph) g' g h4 keeps) built
        (build_metrics-ends sizes.proto_shortcuts unique.0 unique.1 s positive_s stored) sorted
        joined inserted low
