-- ===== src/Building/Nodes/Edges.antt =====
-- The invariant of `EdgeBuilder`, and what it makes of the `NodeBuilder` that follows.
use osmgraphing.Prelude.{
  ℕ, ◌+◌, ◌<◌, ◌≡◌, ◌∙◌, ◌↔◌, ◌⊎◌, Option, none, some, List, [], ◌∷◌, ◌++◌, In, arith, length, All,
  All-append, All-imp, get_elem?, In-get_elem?, length-append, Ordering,
}
use osmgraphing.Prelude.Int.{ℤ, compare_ℤ, eq_of_compare_ℤ, compare_ℤ_refl}
use osmgraphing.Rust.Search.{
  at, binary_search, binary_search_found, binary_search_complete, IsAscending,
}
use osmgraphing.Network.Graph.{Config, EdgeIdx}
use osmgraphing.Building.Protos.{ProtoEdge, ProtoShortcut, ProtoEdgeA, EdgeBuilder}
use osmgraphing.Building.Nodes.{
  insert_ids, insert_with, insert_edge, new_builder, next_nodes, proto_edge_a,
}
use osmgraphing.Building.Nodes.Ids.{In-insert_ids, sorted_ids}
use osmgraphing.Rust.Sort.{SortedBy}

module _ {F : Type 0} where
  -- `a` is an end of some edge.
  abbrev pub EndsAt : ℤ → List (ProtoEdgeA F) → Type 0
  EndsAt a [] = ⊥
  EndsAt a (e ∷ es) = ((a ≡ e.src_id) ⊎ (a ≡ e.dst_id)) ⊎ EndsAt a es

  -- The edges carry their positions, counted from `n`.
  abbrev pub IsNumbered : ℕ → List (ProtoEdgeA F) → Type 0
  IsNumbered n [] = Unit
  IsNumbered n (e ∷ es) = (e.idx ≡ n) × IsNumbered (n + 1) es

  -- A shortcut-edge refers to a stored shortcut.
  abbrev pub RefersBelow : ℕ → ProtoEdgeA F → Type 0
  RefersBelow n e = (k : ℕ) → e.sc_edges ≡ some k → k < n

  pub record IsBuilt (b : EdgeBuilder F) : Type 0 where
    pub ids : (a : ℤ) → In a b.node_ids ↔ EndsAt a b.proto_edges
    pub positions : IsNumbered 0 b.proto_edges
    pub shortcuts : All (RefersBelow (length b.proto_shortcuts)) b.proto_edges

  EndsAt-append :
      (a : ℤ) (es fs : List (ProtoEdgeA F)) → EndsAt a (es ++ fs) ↔ (EndsAt a es ⊎ EndsAt a fs)
  EndsAt-append a [] fs = ground arith
  EndsAt-append a (e ∷ es) fs = ground (arith, EndsAt-append a es fs)

  IsNumbered-append :
      (n : ℕ) (es : List (ProtoEdgeA F)) (e : ProtoEdgeA F)
      → IsNumbered n es
      → e.idx ≡ n + length es
      → IsNumbered n (es ++ e ∷ [])
  IsNumbered-append n [] e h p = (p ∙ omega arith, tt)
  IsNumbered-append n (x ∷ es) e h p = (h.0, IsNumbered-append (n + 1) es e h.1 (omega (arith, p)))

  pub new_builder-IsBuilt : (cfg : Config) → IsBuilt (new_builder cfg)
  unfolding new_builder
  new_builder-IsBuilt cfg = record { ids = λ a. (λ m. m, λ m. m); positions = tt; shortcuts = tt }

  ids_after :
      (b : EdgeBuilder F) (e : ProtoEdge F) (idx : ℕ) (sc : Option ℕ)
      → IsBuilt b
      → (a : ℤ)
      → In a (insert_ids b.node_ids e.src_id e.dst_id)
        ↔ EndsAt a (b.proto_edges ++ proto_edge_a idx e sc ∷ [])
  ids_after b e idx sc h a =
      let grown = In-insert_ids b.node_ids e.src_id e.dst_id a in
      let old = h.ids a in
      let new = EndsAt-append a b.proto_edges (proto_edge_a idx e sc ∷ []) in
      ground (arith, grown, old, new)

  positions_after :
      (es : List (ProtoEdgeA F)) (e : ProtoEdge F) (sc : Option ℕ)
      → IsNumbered 0 es
      → IsNumbered 0 (es ++ proto_edge_a (length es) e sc ∷ [])
  positions_after es e sc h = IsNumbered-append 0 es (proto_edge_a (length es) e sc) h (omega arith)

  insert_with-IsBuilt :
      (b : EdgeBuilder F) (e : ProtoEdge F) (sc : Option (EdgeIdx × EdgeIdx))
      → IsBuilt b
      → IsBuilt (insert_with b e sc)
  unfolding insert_with
  insert_with-IsBuilt b e none h = record {
    ids = ids_after b e (length b.proto_edges) none h;
    positions = positions_after b.proto_edges e none h.positions;
    shortcuts = All-append _ b.proto_edges _ h.shortcuts (λ k q. cc, tt);
  }
  insert_with-IsBuilt b e (some sc) h =
      let n = length b.proto_shortcuts in
      let size : length (b.proto_shortcuts ++ sc ∷ []) ≡ n + 1 =
        omega (arith, length-append b.proto_shortcuts (sc ∷ [])) in
      record {
        ids = ids_after b e (length b.proto_edges) (some n) h;
        positions = positions_after b.proto_edges e (some n) h.positions;
        shortcuts =
            All-append _ b.proto_edges _
              (All-imp (λ x q k r. omega (arith, q k r, size)) b.proto_edges h.shortcuts)
              (λ k q. let r : n ≡ k = cc in omega (arith, r, size), tt);
      }

  -- Inserting an edge or a shortcut keeps the builder's invariant: the node-ids are exactly the
  -- ends of the edges, every edge carries its position, and every shortcut-edge refers to a stored
  -- shortcut.
  pub insert_edge-IsBuilt :
      (b : EdgeBuilder F) (p : ProtoShortcut F) → IsBuilt b → IsBuilt (insert_edge b p)
  unfolding insert_edge
  insert_edge-IsBuilt b p h = insert_with-IsBuilt b p.proto_edge p.sc_edges h

ascending :
    (xs : List ℤ) → SortedBy (λ a b. compare_ℤ a b ≡ Ordering.lt) xs → IsAscending compare_ℤ xs
ascending [] h = tt
ascending (x ∷ xs) h = (h.0, ascending xs h.1)

module _ {F : Type 0} (C : Type 0) where
  -- The node-ids are strictly sorted, and they are the ends of the edges.
  pub next_nodes_ids :
      (b : EdgeBuilder F)
      → IsBuilt b
      → IsAscending compare_ℤ (next_nodes {C = C} b).node_ids
        × ((a : ℤ) → In a (next_nodes {C = C} b).node_ids ↔ EndsAt a b.proto_edges)
  unfolding next_nodes
  next_nodes_ids b h =
      let (sorted, same) = sorted_ids b.node_ids in
      (ascending _ sorted, λ a. (λ m. (h.ids a).0 ((same a).0 m), λ m. (same a).1 ((h.ids a).1 m)))

  -- For a builder that fulfils its invariant, an id is the end of some inserted edge exactly if
  -- the binary search in the sorted node-ids without duplicates finds it, at a position that holds
  -- it.
  pub next_nodes_search :
      (b : EdgeBuilder F) (a : ℤ)
      → IsBuilt b
      → EndsAt a b.proto_edges ↔ (
          (i : ℕ) × (binary_search compare_ℤ (next_nodes {C = C} b).node_ids a ≡ at i)
          × (get_elem? (next_nodes {C = C} b).node_ids i ≡ some a))
  next_nodes_search b a h =
      let (sorted, ends) = next_nodes_ids b h in
      let ids = (next_nodes {C = C} b).node_ids in
      (
        λ m.
            let (i, e) =
              binary_search_complete compare_ℤ compare_ℤ_refl ids a sorted ((ends a).1 m) in
            (i, e, binary_search_found compare_ℤ eq_of_compare_ℤ ids a i e),
        λ f. (ends a).0 (In-get_elem? ids f.0 a f.2),
      )
