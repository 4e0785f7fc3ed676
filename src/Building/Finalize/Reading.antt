-- ===== src/Building/Finalize/Reading.antt =====
-- What the half-edges that leave a node lead to, in terms of the ends of the edges.
use osmgraphing.Prelude.{
  zero, suc, ◌≤◌, ◌≡◌, refl, sym, ap, ◌∙◌, ◌↔◌, inl, inr, some, List, [], ◌∷◌, map, In, IsSorted,
  arith, subst, get_elem?, In-get_elem?,
}
use osmgraphing.Rust.Outcome.{ok, collect}
use osmgraphing.Rust.Vec.{index, index-eq-ok, some_inj}
use osmgraphing.Network.Graph.{
  NodeIdx, EdgeIdx, EdgeAccessor, HalfEdge, dst_idx, starting_from, half_edge,
}
use osmgraphing.Building.Protos.{ProtoEdgeB, ProtoEdgeC}
use osmgraphing.Building.Offsets.{Forward, build_forward}
use osmgraphing.Building.Offsets.Tail.{last_or, le-last_or}
use osmgraphing.Building.Offsets.Loops.{srcs, dsts, build_forward_total}
use osmgraphing.Building.Offsets.Reading.{build_forward_leaving}
use osmgraphing.Building.Finalize.Ends.{In-map, Ends, ends, ends_c}

-- The pairs of ends, in terms of the lists of sources and destinations.
pub srcs-ends : (es : List ProtoEdgeC) → srcs es ≡ map (λ (p : Ends). p.0) (map ends_c es)
srcs-ends [] = refl
srcs-ends (e ∷ es) = ap (◌∷◌ e.src_idx) (srcs-ends es)

pub srcs-ends_b :
    {F : Type 0} (es : List (ProtoEdgeB F))
    → map (λ e. e.src_idx) es ≡ map (λ (p : Ends). p.0) (map ends es)
srcs-ends_b [] = refl
srcs-ends_b (e ∷ es) = ap (◌∷◌ e.src_idx) (srcs-ends_b es)

ends_at :
    (es : List ProtoEdgeC) (u v : NodeIdx)
    → In (u, v) (map ends_c es)
    → (e : EdgeIdx) × (get_elem? (srcs es) e ≡ some u) × (get_elem? (dsts es) e ≡ some v)
ends_at [] u v m = absurd m
ends_at (x ∷ es) u v (inl q) =
    (0, ap (λ (p : Ends). some p.0) (sym q), ap (λ (p : Ends). some p.1) (sym q))
ends_at (x ∷ es) u v (inr n) = let (e, s, d) = ends_at es u v n in (suc e, s, d)

In-ends :
    (es : List ProtoEdgeC) (u v : NodeIdx) (e : EdgeIdx)
    → get_elem? (srcs es) e ≡ some u
    → get_elem? (dsts es) e ≡ some v
    → In (u, v) (map ends_c es)
In-ends [] u v e s d = cc
In-ends (x ∷ es) u v zero s d =
    let a : u ≡ x.src_idx = cc in let b : v ≡ x.dst_idx = cc in inl (λ k. (a k, b k))
In-ends (x ∷ es) u v (suc e) s d = inr (In-ends es u v e s d)

-- A key is not beyond the last one.
In-le-last_or :
    (x w : NodeIdx) (keys : List NodeIdx)
    → IsSorted (x ∷ keys)
    → In w (x ∷ keys)
    → w ≤ last_or x keys
In-le-last_or x w keys h (inl e) = rw e (le-last_or x keys h)
In-le-last_or x w [] h (inr n) = absurd n
In-le-last_or x w (y ∷ keys) h (inr n) = In-le-last_or y w keys h.1 n

le_last : (w : NodeIdx) (keys : List NodeIdx) → IsSorted keys → In w keys → w ≤ last_or 0 keys
le_last w [] h m = absurd m
le_last w (x ∷ keys) h m = In-le-last_or x w keys h m

collect-ok : {A B : Type 0} (g : A → B) (xs : List A) → collect (λ x. ok (g x)) xs ≡ ok (map g xs)
collect-ok g [] = refl
collect-ok g (x ∷ xs) = rw (collect-ok g xs) refl

module _ {F : Type 0} (a : EdgeAccessor F) (es : List ProtoEdgeC) (fwd : Forward) where
  -- What the leaving half-edges of a node lead to.
  pub starting_from-ends :
      (u w x : NodeIdx)
      → IsSorted (srcs es)
      → build_forward es ≡ some fwd
      → a.offsets ≡ fwd.fwd_offsets
      → a.xwd_to_fwd_map ≡ fwd.fwd_to_fwd_map
      → a.edge_dsts ≡ fwd.fwd_dsts
      → In (w, x) (map ends_c es)
      → u ≤ w
      → (hs : List (HalfEdge F)) × (starting_from a u ≡ ok hs)
        × ((v : NodeIdx)
            → ((h : HalfEdge F) × In h hs × (dst_idx a h.idx ≡ ok v)) ↔ In (u, v) (map ends_c es))
  unfolding starting_from half_edge dst_idx
  starting_from-ends u w x sorted built offsets mapping leads there low =
      let (e, at_e, _) = ends_at es w x there in
      let bound = le_last w (srcs es) sorted (In-get_elem? (srcs es) e w at_e) in
      let (edges, reads, exactly) =
        build_forward_leaving a es fwd u sorted built offsets mapping (omega (arith, bound)) in
      let (fwd', built', p) = build_forward_total es sorted in
      let same : fwd' ≡ fwd = some_inj (sym built' ∙ built) in
      let to : a.edge_dsts ≡ dsts es =
        leads ∙ ap (λ (s : Forward). s.fwd_dsts) (sym same) ∙ p.to_fwd in
      (
        map (half_edge a) edges,
        rw reads (collect-ok (half_edge a) edges),
        λ v. (
          λ (h, m, q).
              let (i, there_i, made) = (In-map (half_edge a) edges h).0 m in
              let idx : h.idx ≡ i = ap (λ (k : HalfEdge F). k.idx) made in
              let src = (exactly i).0 there_i in
              let dst = (index-eq-ok (dsts es) i v).0 (
                subst (λ l. index l i ≡ ok v) to (subst (λ k. index a.edge_dsts k ≡ ok v) idx q)) in
              In-ends es u v i src dst,
          λ m.
              let (i, src, dst) = ends_at es u v m in
              (
                half_edge a i,
                (In-map (half_edge a) edges (half_edge a i)).1 (i, (exactly i).1 src, refl),
                subst (λ l. index l i ≡ ok v) (sym to) ((index-eq-ok (dsts es) i v).1 dst),
              ),
        ),
      )
