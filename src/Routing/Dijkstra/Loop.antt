-- ===== src/Routing/Dijkstra/Loop.antt =====
-- routing/dijkstra.rs: the outer loop ends, since every improvement lowers a rank of a cost.
use osmgraphing.Prelude.{
  ℕ, zero, suc, ◌<◌, ◌≤◌, ◌≡◌, refl, sym, ap, ◌∙◌, true, false, none, some, List, [], length, arith,
  All, All-imp, Bool-cases, List-cases, subst, inl, inr,
}
use osmgraphing.Rust.Outcome.{ok}
use osmgraphing.Rust.Float.{Float64}
use osmgraphing.Routing.Dijkstra.State.{CostNode, Dijkstra, pop, has_found_both}
use osmgraphing.Routing.Dijkstra.Search.{Query, Progress, settle, search_loop}
use osmgraphing.Routing.Dijkstra.Order.{pop_total}
use osmgraphing.Routing.Dijkstra.Sides.{measure, Queued, IsSound, Advances, Queued-Advances}
use osmgraphing.Routing.Dijkstra.Relax.{IsRoutable}
use osmgraphing.Routing.Dijkstra.Meeting.{IsCost, Meets, Meets-Advances}
use osmgraphing.Routing.Dijkstra.Settle.{settle_total}

module _ {F C : Type 0} ⦃f : Float64 F⦄ (rank : F → ℕ) (q : Query F C) (n : ℕ)
    (laws : IsCost f rank) (routable : IsRoutable rank q n) where
  abbrev popped : Progress F → List (CostNode F) → Progress F
  popped p rest = record p { state = record p.state { queue = rest } }

  same_but_queue :
      (s : Dijkstra F) (rest : List (CostNode F)) → Advances rank q n s (record s { queue = rest })
  same_but_queue s rest = record {
    keeps = λ d v c. c;
    lowers = λ d v. omega arith;
    same_algo = refl;
  }

  IsSound-popped :
      (s : Dijkstra F) (rest : List (CostNode F))
      → IsSound rank q n s
      → All (Queued rank q n s) rest
      → IsSound rank q n (record s { queue = rest })
  IsSound-popped s rest h k = record {
    sizes = h.sizes;
    visits = h.visits;
    reached = h.reached;
    visited = h.visited;
    queued =
        All-imp
          (λ x c.
            Queued-Advances rank q n s (record s { queue = rest }) x (same_but_queue s rest) c)
          rest k;
  }

  -- What the loop ends in.
  pub record IsSearched (p : Progress F) : Type 0 where
    pub sound : IsSound rank q n p.state
    pub meets : Meets rank q n laws routable p.state p.best_meeting

  module _ (fuel : ℕ) (p : Progress F) where
    loop_empty : pop p.state.queue ≡ ok none → search_loop (suc fuel) q p ≡ some (ok p)
    unfolding search_loop
    loop_empty e = rw (e, search_loop) refl

    loop_found :
        (current : CostNode F) (rest : List (CostNode F))
        → pop p.state.queue ≡ ok (some (current, rest))
        → has_found_both p.state ≡ true
        → search_loop (suc fuel) q p ≡ some (ok (popped p rest))
    unfolding search_loop
    loop_found current rest e both = rw (e, search_loop) (rw both refl)

    loop_on :
        (current : CostNode F) (rest : List (CostNode F)) (p' : Progress F)
        → pop p.state.queue ≡ ok (some (current, rest))
        → has_found_both p.state ≡ false
        → settle q current (popped p rest) ≡ ok p'
        → search_loop (suc fuel) q p ≡ search_loop fuel q p'
    unfolding search_loop
    loop_on current rest p' e on settles = rw (e, search_loop) (rw (on, settles) refl)

  empty_pop : (p : Progress F) → p.state.queue ≡ [] → pop p.state.queue ≡ ok none
  unfolding pop
  empty_pop p empty = subst (λ l. pop l ≡ ok none) (sym empty) refl

  -- A round takes one unit of fuel.
  one_round :
      (bound : ℕ) (p p' : Progress F)
      → ((fuel : ℕ) → bound ≤ fuel → search_loop (suc fuel) q p ≡ some (ok p'))
      → (fuel : ℕ) → bound < fuel
      → search_loop fuel q p ≡ some (ok p')
  one_round bound p p' h zero less = absurd (omega arith)
  one_round bound p p' h (suc fuel) less = h fuel (omega arith)

  pub search_loop_total :
      (bound : ℕ) (p : Progress F)
      → IsSearched p
      → measure rank p.state ≤ bound
      → (p' : Progress F) × IsSearched p'
        × ((fuel : ℕ) → bound < fuel → search_loop fuel q p ≡ some (ok p'))
  search_loop_total zero p h enough = elim (List-cases p.state.queue) [
    | inl empty ↦ (p, h, one_round 0 p p (λ fuel k. loop_empty fuel p (empty_pop p empty)))
    | inr (node, nodes, shape) ↦ absurd (omega (arith, ap length shape, enough))
  ]
  search_loop_total (suc bound) p h enough = elim (List-cases p.state.queue) [
    | inl empty ↦
        (p, h, one_round (suc bound) p p (λ fuel k. loop_empty fuel p (empty_pop p empty)))
    | inr (node, nodes, shape) ↦
        let all = subst (All (Queued rank q n p.state)) shape h.sound.queued in
        let (current, rest, pops, size, here, others) =
          pop_total rank laws.ranked (Queued rank q n p.state) node nodes all in
        let e = subst (λ l. pop l ≡ ok (some (current, rest))) (sym shape) pops in
        let same = same_but_queue p.state rest in
        let sound = IsSound-popped p.state rest h.sound others in
        let met =
          Meets-Advances rank q n laws routable p.state (popped p rest).state p.best_meeting same
            h.meets in
        elim (Bool-cases (has_found_both p.state)) [
          | inl both ↦ (
            popped p rest,
            record { sound = sound; meets = met },
            one_round (suc bound) p (popped p rest)
                (λ fuel k. loop_found fuel p current rest e both),
          )
          | inr on ↦
              let (p', settles, r) =
                settle_total rank q n laws routable (popped p rest) current sound
                  (Queued-Advances rank q n p.state (popped p rest).state current same here) met in
              let (p'', done, ends) =
                search_loop_total bound p' (record { sound = r.sound; meets = r.meets })
                  (omega (arith, r.bounded, ap length shape, size, enough)) in
              (
                p'',
                done,
                one_round (suc bound) p p''
                    (λ fuel k. loop_on fuel p current rest p' e on settles ∙ ends fuel k),
              )
        ]
  ]
