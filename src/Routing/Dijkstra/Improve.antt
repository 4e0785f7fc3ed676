-- ===== src/Routing/Dijkstra/Improve.antt =====
-- routing/dijkstra.rs: one improvement of a node's cost, the writes in the loop over leaving edges.
use native.Mathlib.Decide.{ℕ_discrete}
use osmgraphing.Prelude.{
  ℕ, ◌<◌, ◌≤◌, ◌≡◌, ◌≢◌, refl, sym, ap, ◌∙◌, true, ◌||◌, Option, some, List, [], ◌∷◌, ◌++◌, length,
  arith, All-imp, get_elem?, set, length-set, get_elem?-set_self, get_elem?-set_ne, if◌then◌else◌,
  ltb, subst,
}
use osmgraphing.Rust.Outcome.{ok}
use osmgraphing.Rust.Float.{Float64}
use osmgraphing.Network.Graph.{NodeIdx, EdgeIdx}
use osmgraphing.Routing.Dijkstra.State.{Direction, CostNode, Dijkstra, of_dir, put_dir}
use osmgraphing.Routing.Dijkstra.Search.{Query, improve, is_none}
use osmgraphing.Routing.Dijkstra.Chain.{Chain-new, Chain-kept}
use osmgraphing.Routing.Dijkstra.Walk.{Goes}
use osmgraphing.Routing.Dijkstra.Sides.{
  put_rule, put_here, All_pushed, length_pushed, get_or-eq, get_or-set_self, get_or-set_ne,
  ranks-set, both_ranks-put_dir, measure, cost_at, ReachedBy, Reached, Queued, IsSound, Advances,
  Queued-Advances,
}

module _ {F C : Type 0} ⦃f : Float64 F⦄ (rank : F → ℕ) (q : Query F C) (n : ℕ) (s : Dijkstra F)
    (current : CostNode F) (best : Option (NodeIdx × F)) (edge : EdgeIdx) (dst : NodeIdx)
    (old new_cost : F) where
  abbrev dir : Direction
  dir = current.direction

  abbrev new_preds : List (Option EdgeIdx)
  new_preds = set (of_dir s.predecessors dir) dst (some edge)

  abbrev new_costs : List F
  new_costs = set (of_dir s.costs dir) dst new_cost

  abbrev node : CostNode F
  node = record { idx = dst; cost = new_cost; direction = dir }

  abbrev pub improved : Dijkstra F
  improved = record s {
    predecessors = put_dir s.predecessors dir new_preds;
    costs = put_dir s.costs dir new_costs;
    touched = put_dir s.touched dir (of_dir s.touched dir ++ dst ∷ []);
    queue = if s.is_ch_dijkstra || is_none best then node ∷ s.queue else s.queue;
  }

  module _ (sound : IsSound rank q n s) (here : Queued rank q n s current) (bound : dst < n)
      (leads : Goes q.graph dir edge current.idx dst)
      (read : get_elem? (of_dir s.costs dir) dst ≡ some old) (less : rank new_cost < rank old)
      (grows : rank current.cost ≤ rank new_cost) where
    pub improve_total : improve current best edge dst new_cost s ≡ ok improved
    unfolding improve
    improve_total =
        let sizes = sound.sizes dir in
        let stored : ltb dst (length (of_dir s.predecessors dir)) ≡ true = ground (arith, sizes) in
        let stored' : ltb dst (length (of_dir s.costs dir)) ≡ true = ground (arith, sizes) in
        rw stored (rw stored' refl)

    new_at : cost_at rank q n new_costs dst ≡ rank new_cost
    new_at = ap rank (
        get_or-set_self (of_dir s.costs dir) dst new_cost f.infinity
          (omega (arith, (sound.sizes dir).0)))

    old_at : cost_at rank q n (of_dir s.costs dir) dst ≡ rank old
    old_at = ap rank (get_or-eq (of_dir s.costs dir) dst old f.infinity read)

    others_at :
        (x : NodeIdx)
        → x ≢ dst
        → cost_at rank q n new_costs x ≡ cost_at rank q n (of_dir s.costs dir) x
    others_at x h = ap rank (get_or-set_ne (of_dir s.costs dir) dst x new_cost f.infinity h)

    preds_at :
        (x : NodeIdx) → x ≢ dst → get_elem? new_preds x ≡ get_elem? (of_dir s.predecessors dir) x
    preds_at x h = get_elem?-set_ne (of_dir s.predecessors dir) (some edge) (λ e. h (sym e))

    pred_here : get_elem? new_preds dst ≡ some (some edge)
    pred_here =
        get_elem?-set_self (of_dir s.predecessors dir) dst (some edge)
          (omega (arith, (sound.sizes dir).1))

    dst_chain : ReachedBy rank q n dir new_costs new_preds dst
    dst_chain =
        Chain-new (Goes q.graph dir) edge pred_here leads (omega (arith, new_at, old_at))
          (omega (arith, here.above, new_at)) preds_at others_at here.chain

    kept_chain :
        (v : NodeIdx) → Reached rank q n dir s v → ReachedBy rank q n dir new_costs new_preds v
    kept_chain v c =
        Chain-kept (Goes q.graph dir) edge pred_here leads (omega (arith, new_at, old_at))
          (omega (arith, here.above, new_at)) preds_at others_at here.chain c

    lower_at :
        (v : NodeIdx) → cost_at rank q n new_costs v ≤ cost_at rank q n (of_dir s.costs dir) v
    lower_at v = elim (ℕ_discrete v dst) [
      | yes e ↦ omega (
        arith,
        ap (cost_at rank q n new_costs) e,
        ap (cost_at rank q n (of_dir s.costs dir)) e,
        new_at,
        old_at,
      )
      | no ne ↦ omega (arith, others_at v ne)
    ]

    pub Advances-improved : Advances rank q n s improved
    Advances-improved = record {
      keeps =
          put_rule
            (λ d costs preds.
              (v : NodeIdx) → Reached rank q n d s v → ReachedBy rank q n d costs preds v)
            s.costs s.predecessors dir new_costs new_preds kept_chain (λ d v c. c);
      lowers =
          put_rule
            (λ d costs (preds : List (Option EdgeIdx)).
              (v : NodeIdx) → cost_at rank q n costs v ≤ cost_at rank q n (of_dir s.costs d) v)
            s.costs s.predecessors dir new_costs new_preds lower_at (λ d v. omega arith);
      same_algo = refl;
    }

    reached_here :
        (v : NodeIdx)
        → cost_at rank q n new_costs v ≢ rank f.infinity
        → ReachedBy rank q n dir new_costs new_preds v
    reached_here v h = elim (ℕ_discrete v dst) [
      | yes e ↦ subst (ReachedBy rank q n dir new_costs new_preds) (sym e) dst_chain
      | no ne ↦ kept_chain v (sound.reached dir v (λ p. h (others_at v ne ∙ p)))
    ]

    sizes_after :
        (d : Direction)
        → (length (of_dir improved.costs d) ≡ n) × (length (of_dir improved.predecessors d) ≡ n)
    sizes_after =
        put_rule (λ d costs preds. (length costs ≡ n) × (length preds ≡ n)) s.costs s.predecessors
          dir new_costs new_preds
          (
            length-set (of_dir s.costs dir) dst new_cost ∙ (sound.sizes dir).0,
            length-set (of_dir s.predecessors dir) dst (some edge) ∙ (sound.sizes dir).1,
          )
          sound.sizes

    Reached-after :
        (d : Direction) (v : NodeIdx)
        → cost_at rank q n (of_dir improved.costs d) v ≢ rank f.infinity
        → Reached rank q n d improved v
    Reached-after =
        put_rule
          (λ d costs preds.
            (v : NodeIdx)
            → cost_at rank q n costs v ≢ rank f.infinity
            → ReachedBy rank q n d costs preds v)
          s.costs s.predecessors dir new_costs new_preds reached_here sound.reached

    node-Queued : Queued rank q n improved node
    node-Queued = record {
      bound = bound;
      above =
          put_here
            (λ costs (preds : List (Option EdgeIdx)). cost_at rank q n costs dst ≤ rank new_cost)
            s.costs s.predecessors dir new_costs new_preds (omega (arith, new_at));
      chain =
          put_here (λ costs preds. ReachedBy rank q n dir costs preds dst) s.costs s.predecessors
            dir new_costs new_preds dst_chain;
    }

    pub IsSound-improved : IsSound rank q n improved
    IsSound-improved = record {
      sizes = sizes_after;
      visits = sound.visits;
      reached = Reached-after;
      visited = λ d v h. Advances-improved.keeps d v (sound.visited d v h);
      queued =
          All_pushed (Queued rank q n improved) (s.is_ch_dijkstra || is_none best) node s.queue
            node-Queued
            (All-imp (λ x c. Queued-Advances rank q n s improved x Advances-improved c) s.queue
              sound.queued);
    }

    pub measure-improved : measure rank improved ≤ measure rank s
    measure-improved = omega (
      arith,
      both_ranks-put_dir rank s.costs dir new_costs,
      ranks-set rank (of_dir s.costs dir) dst old new_cost read,
      length_pushed (s.is_ch_dijkstra || is_none best) node s.queue,
    )
