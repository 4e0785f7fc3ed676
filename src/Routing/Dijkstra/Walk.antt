-- ===== src/Routing/Dijkstra/Walk.antt =====
-- routing/dijkstra.rs: the walk over the predecessors from the meeting node on, and the path.
use mathlib.Core.List.{reverse-append}
use osmgraphing.Prelude.{
  ℕ, zero, suc, ◌≤◌, ◌≡◌, refl, sym, Option, none, some, List, [], ◌∷◌, ◌++◌, reverse, arith, subst,
  get_elem?,
}
use osmgraphing.Rust.Outcome.{ok}
use osmgraphing.Rust.Float.{Float64}
use osmgraphing.Network.Graph.{NodeIdx, EdgeIdx, Graph, dst_idx, fwd_edges, bwd_edges}
use osmgraphing.Routing.Dijkstra.State.{Direction, fwd, bwd, opposite}
use osmgraphing.Routing.Dijkstra.Search.{xwd_edges, walk}
use osmgraphing.Routing.Dijkstra.Chain.{Chain, at_root, over, BackWalk}

module _ {F C : Type 0} ⦃f : Float64 F⦄ (g : Graph F C) where
  -- The edge `e` leads from `u` to `v`, and in the direction BWD against the edge.
  abbrev pub Goes : Direction → EdgeIdx → NodeIdx → NodeIdx → Type 0
  Goes d e u v = (dst_idx (xwd_edges g (opposite d)) e ≡ ok u) × (dst_idx (xwd_edges g d) e ≡ ok v)

  -- The edges lead one behind the other from `u` to `v`.
  abbrev pub IsWalk : NodeIdx → List EdgeIdx → NodeIdx → Type 0
  IsWalk u [] v = u ≡ v
  IsWalk u (e ∷ es) v =
      (w : NodeIdx) × (dst_idx (bwd_edges g) e ≡ ok u)
      × (dst_idx (fwd_edges g) e ≡ ok w)
      × IsWalk w es v

  pub IsWalk-append :
      (u v w : NodeIdx) (es fs : List EdgeIdx)
      → IsWalk u es v
      → IsWalk v fs w
      → IsWalk u (es ++ fs) w
  IsWalk-append u v w [] fs p q = subst (λ x. IsWalk x fs w) (sym p) q
  IsWalk-append u v w (e ∷ es) fs p q = (p.0, p.1, p.2, IsWalk-append p.0 v w es fs p.3 q)

  -- Backwards in the direction BWD is along the edges.
  pub BackWalk-bwd :
      (v root : NodeIdx) (es : List EdgeIdx) → BackWalk (Goes bwd) v es root → IsWalk v es root
  unfolding xwd_edges
  BackWalk-bwd v root [] h = h
  BackWalk-bwd v root (e ∷ es) (u, leads, h) = (u, leads.1, leads.0, BackWalk-bwd u root es h)

  pub BackWalk-fwd :
      (v root : NodeIdx) (es : List EdgeIdx)
      → BackWalk (Goes fwd) v es root
      → IsWalk root (reverse es) v
  unfolding xwd_edges
  BackWalk-fwd v root [] h = sym h
  BackWalk-fwd v root (e ∷ es) (u, leads, h) =
      let last : IsWalk u (e ∷ []) v = (v, leads.0, leads.1, refl) in
      subst (λ l. IsWalk root l v) (sym (reverse-append (e ∷ []) es))
        (IsWalk-append root u v (reverse es) (e ∷ []) (BackWalk-fwd u root es h) last)

  module _ (d : Direction) (preds : List (Option EdgeIdx)) where
    walk_root :
        (v : NodeIdx) (fuel : ℕ)
        → get_elem? preds v ≡ some none
        → 1 ≤ fuel
        → walk fuel preds (xwd_edges g (opposite d)) v ≡ some (ok [])
    unfolding walk
    walk_root v zero p h = elim h [ ]
    walk_root v (suc fuel) p h = rw (p, walk) refl

    walk_over :
        (u v : NodeIdx) (e : EdgeIdx) (es : List EdgeIdx) (fuel : ℕ)
        → get_elem? preds v ≡ some (some e)
        → dst_idx (xwd_edges g (opposite d)) e ≡ ok u
        → walk fuel preds (xwd_edges g (opposite d)) u ≡ some (ok es)
        → walk (suc fuel) preds (xwd_edges g (opposite d)) v ≡ some (ok (e ∷ es))
    unfolding walk
    walk_over u v e es fuel p leads rest = rw (p, walk) (rw (leads, walk) (rw (rest, walk) refl))

    -- The walk ends at the root, with the edges of the chain.
    pub walk_total :
        {cost : NodeIdx → ℕ} {root v : NodeIdx}
        → Chain (Goes d) (get_elem? preds) cost root v
        → (es : List EdgeIdx) × BackWalk (Goes d) v es root
          × ((k : ℕ) × ((fuel : ℕ)
                → k ≤ fuel
                → walk fuel preds (xwd_edges g (opposite d)) v ≡ some (ok es)))
    walk_total (at_root {v = v} e p) = ([], e, (1, λ fuel h. walk_root v fuel p h))
    walk_total (over {v = v} {u = u} {e = e} p leads le c) =
        let (es, back, ends) = walk_total c in
        (e ∷ es, (u, leads, back), (suc ends.0, longer es ends.0 ends.1))
      where
        longer :
            (es : List EdgeIdx) (k : ℕ)
            → ((fuel : ℕ) → k ≤ fuel → walk fuel preds (xwd_edges g (opposite d)) u ≡ some (ok es))
            → (fuel : ℕ) → suc k ≤ fuel
            → walk fuel preds (xwd_edges g (opposite d)) v ≡ some (ok (e ∷ es))
        longer es k ends zero h = absurd (omega arith)
        longer es k ends (suc fuel) h = walk_over u v e es fuel p leads.0 (ends fuel (omega arith))
