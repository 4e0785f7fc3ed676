-- ===== src/Routing/Dijkstra/Relax.antt =====
-- routing/dijkstra.rs: the loop over the leaving edges of a node keeps the search's invariant.
use osmgraphing.Prelude.{
  ℕ, ◌<◌, ◌≤◌, ◌≡◌, refl, sym, ◌∙◌, Bool, true, false, Option, some, List, [], ◌∷◌, arith, All,
  get_elem?, get_elem?_total, if◌then◌else◌, ltb, Bool-cases, inl, inr,
}
use osmgraphing.Prelude.Int.{ℤ}
use osmgraphing.Rust.Outcome.{ok, ◌>>=◌}
use osmgraphing.Rust.Float.{Float64, flt}
use osmgraphing.Helpers.{dot_product}
use osmgraphing.Network.Graph.{
  NodeIdx, HalfEdge, nodes, node_level, node_id, metrics_at, starting_from,
}
use osmgraphing.Routing.Dijkstra.State.{Direction, CostNode, Dijkstra, of_dir}
use osmgraphing.Routing.Dijkstra.Search.{Query, xwd_edges, descends_level, improve, relax}
use osmgraphing.Routing.Dijkstra.Walk.{Goes}
use osmgraphing.Routing.Dijkstra.Order.{IsRanked, flt-eq-ltb}
use osmgraphing.Routing.Dijkstra.Sides.{
  measure, Queued, IsSound, Advances, Queued-Advances, Advances-self, Advances-trans,
}
use osmgraphing.Routing.Dijkstra.Improve.{
  improved, improve_total, Advances-improved, IsSound-improved, measure-improved,
}

module _ {F C : Type 0} ⦃f : Float64 F⦄ (rank : F → ℕ) (q : Query F C) (n : ℕ) where
  -- The half-edge leaves `u` in the direction, its metrics can be read, and it lowers no cost.
  pub record IsLeaving (d : Direction) (u : NodeIdx) (h : HalfEdge F) : Type 0 where
    pub accessor : h.edge_accessor ≡ xwd_edges q.graph d
    pub dst : NodeIdx
    pub bound : dst < n
    pub leads : Goes q.graph d h.idx u dst
    pub metrics : List F
    pub read : metrics_at (xwd_edges q.graph d).metrics h.idx ≡ ok metrics
    pub grows : (a : F) → rank a ≤ rank (f.add a (dot_product q.alphas metrics))

  -- The arrays of the query's graph belong to its `n` nodes.
  pub record IsRoutable : Type 0 where
    pub levels : (u : NodeIdx) → u < n → (l : ℕ) × (node_level (nodes q.graph) u ≡ ok l)
    pub ids : (u : NodeIdx) → u < n → (id : ℤ) × (node_id (nodes q.graph) u ≡ ok id)
    pub leaving :
        (d : Direction) (u : NodeIdx)
        → u < n
        → (hs : List (HalfEdge F)) × (starting_from (xwd_edges q.graph d) u ≡ ok hs)
          × All (IsLeaving d u) hs

  module _ (ranked : IsRanked f rank) (routable : IsRoutable) where
    descends_level_total :
        (is_ch : Bool) (u v : NodeIdx)
        → u < n
        → v < n
        → (b : Bool) × (descends_level q is_ch u v ≡ ok b)
    unfolding descends_level
    descends_level_total true u v h k =
        let (here, e) = routable.levels u h in
        let (there, e') = routable.levels v k in (ltb there here, rw e (rw e' refl))
    descends_level_total false u v h k = (false, refl)

    -- What the loop has made of `s`.
    pub record Relaxed (s t : Dijkstra F) : Type 0 where
      pub sound : IsSound rank q n t
      pub advances : Advances rank q n s t
      pub bounded : measure rank t ≤ measure rank s

    Relaxed-self : (s : Dijkstra F) → IsSound rank q n s → Relaxed s s
    Relaxed-self s h = record {
      sound = h;
      advances = Advances-self rank q n s;
      bounded = omega arith;
    }

    Relaxed-before :
        (s t u : Dijkstra F)
        → Advances rank q n s t
        → measure rank t ≤ measure rank s
        → Relaxed t u
        → Relaxed s u
    Relaxed-before s t u a b r = record {
      sound = r.sound;
      advances = Advances-trans rank q n s t u a r.advances;
      bounded = omega (arith, b, r.bounded);
    }

    -- One round, with what it reads.
    relax_reads :
        (current : CostNode F) (best : Option (NodeIdx × F)) (e : HalfEdge F)
        (es : List (HalfEdge F)) (s : Dijkstra F) (l : IsLeaving current.direction current.idx e)
        (stops : Bool) (old : F)
        → descends_level q s.is_ch_dijkstra current.idx l.dst ≡ ok stops
        → get_elem? (of_dir s.costs current.direction) l.dst ≡ some old
        → relax q current best (e ∷ es) s ≡ (
            if stops
            then ok s
            else ((if flt (f.add current.cost (dot_product q.alphas l.metrics)) old
                  then improve current best e.idx l.dst
                      (f.add current.cost (dot_product q.alphas l.metrics))
                      s
                  else ok s)
                >>= relax q current best es))
    unfolding relax
    relax_reads current best e es s l stops old level read =
        rw (l.accessor, l.leads.1) (rw level (rw (l.read, read) refl))

    pub relax_total :
        (current : CostNode F) (best : Option (NodeIdx × F)) (es : List (HalfEdge F))
        (s : Dijkstra F)
        → IsSound rank q n s
        → Queued rank q n s current
        → All (IsLeaving current.direction current.idx) es
        → (t : Dijkstra F) × (relax q current best es s ≡ ok t) × Relaxed s t
    relax_total current best [] s sound here leaving =
        (s, unfold relax in refl, Relaxed-self s sound)
    relax_total current best (e ∷ es) s sound here leaving =
        let l = leaving.0 in
        let (stops, level) =
          descends_level_total s.is_ch_dijkstra current.idx l.dst here.bound l.bound in
        let (old, read) =
          get_elem?_total (of_dir s.costs current.direction) l.dst
            (omega (arith, (sound.sizes current.direction).0, l.bound)) in
        let new_cost = f.add current.cost (dot_product q.alphas l.metrics) in
        let round = relax_reads current best e es s l stops old level read in
        elim (Bool-cases stops) [
          | inl up ↦ (s, round ∙ rw up refl, Relaxed-self s sound)
          | inr on ↦ elim (Bool-cases (flt new_cost old)) [
            | inl less ↦
                let lower : rank new_cost < rank old =
                  (let h = sym (flt-eq-ltb rank ranked new_cost old) ∙ less in ground arith) in
                let s' = improved rank q n s current best e.idx l.dst old new_cost in
                let a =
                  Advances-improved rank q n s current best e.idx l.dst old new_cost sound here
                    l.bound l.leads read lower (l.grows current.cost) in
                let b =
                  measure-improved rank q n s current best e.idx l.dst old new_cost sound here
                    l.bound l.leads read lower (l.grows current.cost) in
                let c =
                  IsSound-improved rank q n s current best e.idx l.dst old new_cost sound here
                    l.bound l.leads read lower (l.grows current.cost) in
                let d =
                  improve_total rank q n s current best e.idx l.dst old new_cost sound here l.bound
                    l.leads read lower (l.grows current.cost) in
                let (t, ends, r) =
                  relax_total current best es s' c (Queued-Advances rank q n s s' current a here)
                    leaving.1 in
                (t, round ∙ rw (on, less, d) ends, Relaxed-before s s' t a b r)
            | inr more ↦
                let (t, ends, r) = relax_total current best es s sound here leaving.1 in
                (t, round ∙ rw (on, more) ends, r)
          ]
        ]
