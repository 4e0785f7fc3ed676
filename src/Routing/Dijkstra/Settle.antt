-- ===== src/Routing/Dijkstra/Settle.antt =====
-- routing/dijkstra.rs: the body of the outer loop keeps the invariant.
use osmgraphing.Prelude.{ℕ, ◌≤◌, ◌≡◌, refl, Bool, true, arith, All-imp, Bool-cases, inl, inr}
use osmgraphing.Rust.Outcome.{ok}
use osmgraphing.Rust.Float.{Float64, fle}
use osmgraphing.Routing.Dijkstra.State.{CostNode, Both, Dijkstra, put_dir, has_costnode_improved}
use osmgraphing.Routing.Dijkstra.Search.{Query, Progress, settle}
use osmgraphing.Routing.Dijkstra.Sides.{measure, Queued, IsSound, Advances, Queued-Advances}
use osmgraphing.Routing.Dijkstra.Relax.{IsRoutable, relax_total}
use osmgraphing.Routing.Dijkstra.Meeting.{
  IsCost, Meets, Meets-Advances, costs_read, visit_total, meet_total,
}

module _ {F C : Type 0} ⦃f : Float64 F⦄ (rank : F → ℕ) (q : Query F C) (n : ℕ)
    (laws : IsCost f rank) (routable : IsRoutable rank q n) where
  -- What is kept of a search that has gone on from `s`.
  pub record Settled (p p' : Progress F) : Type 0 where
    pub sound : IsSound rank q n p'.state
    pub meets : Meets rank q n laws routable p'.state p'.best_meeting
    pub bounded : measure rank p'.state ≤ measure rank p.state

  -- The flags are not part of the invariant.
  abbrev flagged : Dijkstra F → Both Bool → Dijkstra F
  flagged s flags = record s { has_found_best_meeting_node = flags }

  IsSound-flagged :
      (s : Dijkstra F) (flags : Both Bool) → IsSound rank q n s → IsSound rank q n (flagged s flags)
  IsSound-flagged s flags h =
      let same : Advances rank q n s (flagged s flags) = record {
        keeps = λ d v c. c;
        lowers = λ d v. omega arith;
        same_algo = refl;
      } in
      record {
        sizes = h.sizes;
        visits = h.visits;
        reached = h.reached;
        visited = h.visited;
        queued =
            All-imp (λ x c. Queued-Advances rank q n s (flagged s flags) x same c) s.queue h.queued;
      }

  has_improved_total :
      (s : Dijkstra F) (node : CostNode F)
      → IsSound rank q n s
      → Queued rank q n s node
      → (b : Bool) × (has_costnode_improved s node ≡ ok b)
  unfolding has_costnode_improved
  has_improved_total s node sound here =
      let (c, e, at_c) = costs_read rank q n laws routable s node node.direction sound here in
      (fle node.cost c, rw e refl)

  pub settle_total :
      (p : Progress F) (current : CostNode F)
      → IsSound rank q n p.state
      → Queued rank q n p.state current
      → Meets rank q n laws routable p.state p.best_meeting
      → (p' : Progress F) × (settle q current p ≡ ok p') × Settled p p'
  unfolding settle
  settle_total p current sound here met =
      let (improved, e) = has_improved_total p.state current sound here in
      let (s, visits, r, marked) = visit_total rank q n laws routable p.state current sound here in
      let here' = Queued-Advances rank q n p.state s current r.advances here in
      let ((best, finished), meets, met') =
        meet_total rank q n laws routable s current p.best_meeting r.sound here' marked
          (Meets-Advances rank q n laws routable p.state s p.best_meeting r.advances met) in
      let (hs, leaves, leaving) = routable.leaving current.direction current.idx here.bound in
      let (t, relaxes, r') =
        relax_total rank q n laws.ranked routable current best hs s r.sound here' leaving in
      let flags = put_dir s.has_found_best_meeting_node current.direction true in
      elim (Bool-cases improved) [
        | inr late ↦
            (p, rw (e, late) refl, record { sound = sound; meets = met; bounded = omega arith })
        | inl on ↦ elim (Bool-cases finished) [
          | inl over ↦ (
            record { state = flagged s flags; best_meeting = best },
            rw (e, on, visits, meets, over) refl,
            record {
              sound = IsSound-flagged s flags r.sound;
              meets =
                  Meets-Advances rank q n laws routable s (flagged s flags) best
                    (record { keeps = λ d v c. c; lowers = λ d v. omega arith; same_algo = refl })
                    met';
              bounded = omega (arith, r.bounded);
            },
          )
          | inr more ↦ (
            record { state = t; best_meeting = best },
            rw (e, on, visits, meets, more, leaves, relaxes) refl,
            record {
              sound = r'.sound;
              meets = Meets-Advances rank q n laws routable s t best r'.advances met';
              bounded = omega (arith, r.bounded, r'.bounded);
            },
          )
        ]
      ]
