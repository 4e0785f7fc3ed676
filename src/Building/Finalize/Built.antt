-- ===== src/Building/Finalize/Built.antt =====
-- What is inserted into the builders makes a builder whose parts fit.
use osmgraphing.Prelude.{
  ℕ, ◌+◌, ◌<◌, ◌≤◌, ◌≡◌, ◌∙◌, inl, inr, Option, none, List, [], ◌∷◌, map, In, All, All-imp, All-In,
  All_of_In, arith, length, length-replicate,
}
use osmgraphing.Rust.Outcome.{ok, Returns}
use osmgraphing.Rust.Float.{Float64}
use osmgraphing.Building.Protos.{ProtoNode, ProtoEdgeA, EdgeBuilder, NodeBuilder}
use osmgraphing.Building.Remap.{IsUnique}
use osmgraphing.Building.Nodes.{next_nodes, next_graph}
use osmgraphing.Building.Nodes.Insertions.{
  insert_nodes, insert_nodes_total, with_places, AsMany, next_nodes-IsSized,
}
use osmgraphing.Building.Nodes.Edges.{EndsAt, IsNumbered, IsBuilt, next_nodes_ids}
use osmgraphing.Building.Finalize.{ChunkSizes, finalize}
use osmgraphing.Building.Finalize.Corrected.{AreBelow}
use osmgraphing.Building.Finalize.Prepared.{IsReady}
use osmgraphing.Building.Finalize.Total.{builder_nodes, finalize_total}

module _ {F : Type 0} where
  numbered-low :
      (k : ℕ) (es : List (ProtoEdgeA F))
      → IsNumbered k es
      → All (λ o. (k ≤ o) × (o < k + length es)) (map (λ e. e.idx) es)
  numbered-low k [] h = tt
  numbered-low k (e ∷ es) h = (
    (omega (arith, h.0), omega (arith, h.0)),
    All-imp (λ o q. (omega (arith, q.0), omega (arith, q.1))) (map (λ e. e.idx) es)
        (numbered-low (k + 1) es h.1),
  )

  numbered-IsUnique :
      (k : ℕ) (es : List (ProtoEdgeA F)) → IsNumbered k es → IsUnique (map (λ e. e.idx) es)
  numbered-IsUnique k [] h = tt
  numbered-IsUnique k (e ∷ es) h = (
    λ m.
        let q = All-In _ (map (λ e. e.idx) es) e.idx (numbered-low (k + 1) es h.1) m in
        omega (arith, q.0, h.0),
    numbered-IsUnique (k + 1) es h.1,
  )

  In-EndsAt :
      (es : List (ProtoEdgeA F)) (e : ProtoEdgeA F)
      → In e es
      → EndsAt e.src_id es × EndsAt e.dst_id es
  In-EndsAt [] e m = absurd m
  In-EndsAt (x ∷ es) e (inl q) = (inl (inl (λ k. (q k).src_id)), inl (inr (λ k. (q k).dst_id)))
  In-EndsAt (x ∷ es) e (inr m) = let (s, d) = In-EndsAt es e m in (inr s, inr d)

module _ {F C : Type 0} where
  -- A `NodeBuilder` from which `finalize` can go on.
  abbrev pub IsFilled : NodeBuilder F C → Type 0
  IsFilled b =
      IsReady (builder_nodes (next_graph b)) (next_graph b)
      × (length b.node_coords ≡ length b.node_ids)

  -- The edges inserted, whose shortcuts consist of inserted edges and whose metrics are complete.
  next_nodes-IsFilled :
      (b : EdgeBuilder F)
      → IsBuilt b
      → All (AreBelow (length b.proto_edges)) b.proto_shortcuts
      → All (λ a. length a.metrics ≡ b.cfg.dim) b.proto_edges
      → IsFilled (next_nodes b)
  unfolding next_graph next_nodes
  next_nodes-IsFilled b h halves dims =
      let (ascending, ends) = next_nodes_ids C b h in
      let size = length-replicate {A = ℕ} (length (next_nodes {C = C} b).node_ids) 0 in
      (
        record {
          ascending = ascending;
          levels = size;
          complete = All_of_In b.proto_edges (λ a m.
              let (s, d) = In-EndsAt b.proto_edges a m in
              record {
                src = (ends a.src_id).1 s;
                dst = (ends a.dst_id).1 d;
                shortcut = All-In _ b.proto_edges a h.shortcuts m;
                dim = All-In _ b.proto_edges a dims m;
              });
          low =
              All-imp (λ o q. omega (arith, q.1)) (map (λ e. e.idx) b.proto_edges)
                (numbered-low 0 b.proto_edges h.positions);
          unique = numbered-IsUnique 0 b.proto_edges h.positions;
          halves = halves;
        },
        length-replicate {A = Option C} (length (next_nodes {C = C} b).node_ids) none,
      )

  with_places-IsFilled :
      (b : NodeBuilder F C) (coords : List (Option C)) (levels : List ℕ)
      → AsMany b coords levels
      → IsFilled b
      → IsFilled (with_places b coords levels)
  unfolding next_graph
  with_places-IsFilled b coords levels (many, many') (h, size) = (
    record {
      ascending = h.ascending;
      levels = many' ∙ h.levels;
      complete = h.complete;
      low = h.low;
      unique = h.unique;
      halves = h.halves;
    },
    many ∙ size,
  )

module _ {F : Type 0} ⦃f : Float64 F⦄ {C : Type 0} where
  -- If the chunks of both loops have a positive size and an `EdgeBuilder` fulfils its invariant,
  -- its shortcuts consist of inserted edges, and its edges have as many metrics as the
  -- configuration says, then, whatever nodes are inserted behind the edges, inserting them does
  -- not panic, and `finalize` returns a graph or an error for the resulting builder.
  pub finalize_built :
      (sizes : ChunkSizes) (b : EdgeBuilder F) (ps : List (ProtoNode C))
      → 0 < sizes.proto_edges_b
      → 0 < sizes.proto_shortcuts
      → IsBuilt b
      → All (AreBelow (length b.proto_edges)) b.proto_shortcuts
      → All (λ a. length a.metrics ≡ b.cfg.dim) b.proto_edges
      → (nodes : NodeBuilder F C) × (insert_nodes (next_nodes b) ps ≡ ok nodes)
        × Returns (finalize sizes (next_graph nodes))
  finalize_built sizes b ps positive_b positive_s h halves dims =
      let (coords, levels, many, inserted) =
        insert_nodes_total (next_nodes b) ps (next_nodes-IsSized C b) in
      let nodes = with_places (next_nodes b) coords levels in
      let (ready, size) =
        with_places-IsFilled (next_nodes b) coords levels many
          (next_nodes-IsFilled b h halves dims) in
      (
        nodes,
        inserted,
        finalize_total sizes (next_graph nodes) positive_b positive_s (unfold next_graph in size)
            ready,
      )
