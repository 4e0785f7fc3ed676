-- ===== src/Building/Finalize/Ends.antt =====
-- Each stage of `finalize` keeps the pairs of nodes that the edges join.
use mathlib.Core.List.{map-append}
use osmgraphing.Prelude.{
  ◌≡◌, refl, ap, ◌∙◌, ◌↔◌, ◌⊎◌, inl, inr, List, [], ◌∷◌, ◌++◌, map, In, arith, subst,
}
use osmgraphing.Prelude.Int.{ℤ}
use osmgraphing.Rust.Outcome.{ok, returned}
use osmgraphing.Rust.Search.{at}
use osmgraphing.Network.Graph.{NodeIdx, NodeAccessor, node_idx_from}
use osmgraphing.Building.Protos.{ProtoEdgeA, ProtoEdgeB, ProtoEdgeC}
use osmgraphing.Building.Chunks.{for_each}
use osmgraphing.Building.Nodes.Ids.{In-append}
use osmgraphing.Building.Stages.{expect_idx, proto_edge_b, replace_ids}

pub In-map :
    {A B : Type 0} (f : A → B) (xs : List A) (y : B)
    → In y (map f xs) ↔ ((x : A) × In x xs × (y ≡ f x))
In-map f [] y = (λ m. absurd m, λ m. absurd m.1)
In-map f (x ∷ xs) y =
    let ih = In-map f xs y in
    (
      λ m. elim m [ inl e ↦ (x, inl refl, e) | inr n ↦ let (z, q, e) = ih.0 n in (z, inr q, e) ],
      λ m. elim m.1 [ inl e ↦ inl (m.2 ∙ ap f e) | inr n ↦ inr (ih.1 (m.0, n, m.2)) ],
    )

-- The two ends of an edge.
abbrev pub Ends : Type 0
Ends = NodeIdx × NodeIdx

abbrev pub ends : {F : Type 0} → ProtoEdgeB F → Ends
ends e = (e.src_idx, e.dst_idx)

abbrev pub ends_c : ProtoEdgeC → Ends
ends_c e = (e.src_idx, e.dst_idx)

module _ {C : Type 0} (nodes : NodeAccessor C) where
  expect_idx_found :
      (id : ℤ) (i : NodeIdx) → expect_idx nodes id ≡ ok i → node_idx_from nodes id ≡ at i
  expect_idx_found id i h = ground arith

  -- The nodes that an inserted edge joins.
  abbrev pub Joins : {F : Type 0} → ProtoEdgeA F → Ends → Type 0
  Joins a p = (node_idx_from nodes a.src_id ≡ at p.0) × (node_idx_from nodes a.dst_id ≡ at p.1)

pushed-ends :
    {F : Type 0} (acc : List (ProtoEdgeB F)) (e : ProtoEdgeB F) (acc' : List (ProtoEdgeB F))
    → acc ++ e ∷ [] ≡ acc'
    → (p : Ends) → In p (map ends acc') ↔ (In p (map ends acc) ⊎ (p ≡ ends e))
pushed-ends acc e acc' shape p =
    rw (← shape, map-append ends acc (e ∷ []))
      (ground (arith, In-append p (map ends acc) (ends e ∷ [])))

module _ {F C : Type 0} (nodes : NodeAccessor C) where
  proto_edge_b-Joins :
      (a : ProtoEdgeA F) (e : ProtoEdgeB F)
      → proto_edge_b nodes a ≡ ok e
      → (p : Ends) → Joins nodes a p ↔ (p ≡ ends e)
  unfolding proto_edge_b
  proto_edge_b-Joins a e h p =
      let (i, h', src) = returned e (expect_idx nodes a.src_id) _ h in
      let (j, h'', dst) = returned e (expect_idx nodes a.dst_id) _ h' in
      let at_src = expect_idx_found nodes a.src_id i src in
      let at_dst = expect_idx_found nodes a.dst_id j dst in
      let same_src : i ≡ e.src_idx = cc in
      let same_dst : j ≡ e.dst_idx = cc in
      (
        λ m.
            let first : p.0 ≡ e.src_idx = cc (m.0) in
            let second : p.1 ≡ e.dst_idx = cc (m.1) in (λ k. (first k, second k)),
        λ q. (cc, cc),
      )

  -- The loop that replaces the ids.
  pub replace_ids-ends :
      (as' : List (ProtoEdgeA F)) (acc bs : List (ProtoEdgeB F))
      → for_each (replace_ids nodes) as' acc ≡ ok bs
      → (p : Ends)
      → In p (map ends bs)
        ↔ (In p (map ends acc) ⊎ ((a : ProtoEdgeA F) × In a as' × Joins nodes a p))
  unfolding for_each replace_ids
  replace_ids-ends [] acc bs h p =
      let e : acc ≡ bs = cc in rw (← e) (λ m. inl m, λ m. elim m [ inl n ↦ n | inr n ↦ absurd n.1 ])
  replace_ids-ends (a ∷ as') acc bs h p =
      let (acc', rest, step) =
        returned bs (replace_ids nodes a acc) (for_each (replace_ids nodes) as') h in
      let (e, more, made) = returned acc' (proto_edge_b nodes a) (λ e. ok (acc ++ e ∷ [])) step in
      let shape : acc ++ e ∷ [] ≡ acc' = cc in
      let later = replace_ids-ends as' acc' bs rest p in
      let joined = proto_edge_b-Joins a e made p in
      let grown = pushed-ends acc e acc' shape p in
      (
        λ m. elim (later.0 m) [
          | inl n ↦ elim (grown.0 n) [
            | inl old ↦ inl old
            | inr new ↦ inr (a, inl refl, joined.1 new)
          ]
          | inr (b, there, j) ↦ inr (b, inr there, j)
        ],
        λ m. elim m [
          | inl old ↦ later.1 (inl (grown.1 (inl old)))
          | inr (b, inl same, j) ↦
              later.1 (inl (grown.1 (inr (joined.0 (subst (λ x. Joins nodes x p) same j)))))
          | inr (b, inr there, j) ↦ later.1 (inr (b, there, j))
        ],
      )
