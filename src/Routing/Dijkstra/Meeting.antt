-- ===== src/Routing/Dijkstra/Meeting.antt =====
-- routing/dijkstra.rs: a meeting node is reached from both sides, and marking a node as visited keeps
-- the invariant.
use osmgraphing.Prelude.{
  ℕ, ◌<◌, ◌≤◌, ◌≡◌, ◌≢◌, refl, sym, ap, ◌∙◌, ◌⊎◌, Bool, true, false, not, Option, none, some, List,
  length, arith, All-imp, get_elem?, get_elem?_total, set, length-set, get_elem?-set_self,
  get_elem?-set_ne, ltb, subst, Bool-cases, inl, inr,
}
use native.Mathlib.Decide.{ℕ_discrete}
use osmgraphing.Rust.Outcome.{ok}
use osmgraphing.Rust.Float.{Float64, flt, feq}
use osmgraphing.Network.Graph.{NodeIdx}
use osmgraphing.Routing.Dijkstra.State.{
  Direction, fwd, bwd, opposite, CostNode, Both, Dijkstra, of_dir, put_dir, visit,
  is_meeting_costnode, total_cost,
}
use osmgraphing.Routing.Dijkstra.Search.{Query, meet}
use osmgraphing.Routing.Dijkstra.Order.{IsRanked, flt-eq-ltb, feq-eq-==}
use osmgraphing.Routing.Dijkstra.Sides.{
  put_rule, get_or-eq, cost_at, Reached, Queued, IsSound, Advances, Queued-Advances, Advances-self,
}
use osmgraphing.Routing.Dijkstra.Relax.{IsRoutable, Relaxed}

-- What costs are: none is NaN, none is above infinity, and a sum with infinity is no less.
pub record IsCost {F : Type 0} (f : Float64 F) (rank : F → ℕ) : Type 0 where
  pub ranked : IsRanked f rank
  pub top : (a : F) → rank a ≤ rank f.infinity
  pub absorbing :
      (a b : F)
      → (rank a ≡ rank f.infinity) ⊎ (rank b ≡ rank f.infinity)
      → rank f.infinity ≤ rank (f.add a b)

both_of : (P : Direction → Type 0) (d : Direction) → P d → P (opposite d) → (d' : Direction) → P d'
both_of P fwd p o fwd = p
both_of P fwd p o bwd = o
both_of P bwd p o fwd = o
both_of P bwd p o bwd = p

module _ {F C : Type 0} ⦃f : Float64 F⦄ (rank : F → ℕ) (q : Query F C) (n : ℕ)
    (laws : IsCost f rank) (routable : IsRoutable rank q n) where
  -- The best meeting node, if there is one, is reached from both sides.
  abbrev pub Meets : Dijkstra F → Option (NodeIdx × F) → Type 0
  Meets s none = Unit
  Meets s (some (node, total)) = (d : Direction) → Reached rank q n d s node

  pub Meets-Advances :
      (s t : Dijkstra F) (best : Option (NodeIdx × F))
      → Advances rank q n s t
      → Meets s best
      → Meets t best
  Meets-Advances s t none a m = tt
  Meets-Advances s t (some (node, total)) a m = λ d. a.keeps d node (m d)

  abbrev with_visit : Dijkstra F → CostNode F → Dijkstra F
  with_visit s node = record s {
    is_visited =
        put_dir s.is_visited node.direction
          (set (of_dir s.is_visited node.direction) node.idx true);
  }

  set-true :
      (xs : List Bool) (i v : ℕ)
      → get_elem? (set xs i true) v ≡ some true
      → (v ≡ i) ⊎ (get_elem? xs v ≡ some true)
  set-true xs i v h = elim (ℕ_discrete v i) [
    | yes e ↦ inl e
    | no ne ↦ inr (sym (get_elem?-set_ne xs true (λ e. ne (sym e))) ∙ h)
  ]

  -- `debug_assert!` of `is_meeting_costnode`: a visited node is marked, where nodes are.
  abbrev pub IsMarked : Dijkstra F → CostNode F → Type 0
  IsMarked s node =
      s.is_ch_dijkstra ≡ false → get_elem? (of_dir s.is_visited node.direction) node.idx ≡ some true

  of_dir-put_dir :
      (b : Both (List Bool)) (d : Direction) (xs : List Bool) → of_dir (put_dir b d xs) d ≡ xs
  of_dir-put_dir b fwd xs = refl
  of_dir-put_dir b bwd xs = refl

  with_visit-IsMarked :
      (s : Dijkstra F) (node : CostNode F)
      → node.idx < length (of_dir s.is_visited node.direction)
      → IsMarked (with_visit s node) node
  with_visit-IsMarked s node h = λ plain.
      ap (λ xs. get_elem? xs node.idx)
        (of_dir-put_dir s.is_visited node.direction
          (set (of_dir s.is_visited node.direction) node.idx true))
      ∙ get_elem?-set_self (of_dir s.is_visited node.direction) node.idx true h

  pub visit_total :
      (s : Dijkstra F) (node : CostNode F)
      → IsSound rank q n s
      → Queued rank q n s node
      → (t : Dijkstra F) × (visit node s ≡ ok t)
        × Relaxed rank q n laws.ranked routable s t
        × IsMarked t node
  unfolding visit
  visit_total s node sound here = elim (Bool-cases s.is_ch_dijkstra) [
    | inl ch ↦ (
      s,
      rw ch refl,
      record { sound = sound; advances = Advances-self rank q n s; bounded = omega arith },
      λ plain. cc,
    )
    | inr plain ↦
        let size = sound.visits plain node.direction in
        let stored : ltb node.idx (length (of_dir s.is_visited node.direction)) ≡ true =
          (let b = here.bound in ground (arith, size)) in
        let visits = set (of_dir s.is_visited node.direction) node.idx true in
        let same : Advances rank q n s (with_visit s node) = record {
          keeps = λ d v c. c;
          lowers = λ d v. omega arith;
          same_algo = refl;
        } in
        (
          with_visit s node,
          rw plain (rw stored refl),
          record {
            sound = record {
              sizes = sound.sizes;
              visits = λ p.
                  put_rule (λ d (a : List Bool) (b : List Bool). length a ≡ n) s.is_visited
                    s.is_visited node.direction visits visits
                    (length-set (of_dir s.is_visited node.direction) node.idx true ∙ size)
                    (sound.visits p);
              reached = sound.reached;
              visited =
                  put_rule
                    (λ d (a : List Bool) (b : List Bool).
                      (v : NodeIdx) → get_elem? a v ≡ some true → Reached rank q n d s v)
                    s.is_visited s.is_visited node.direction visits visits
                    (λ v h. elim (set-true (of_dir s.is_visited node.direction) node.idx v h) [
                      | inl e ↦ subst (Reached rank q n node.direction s) (sym e) here.chain
                      | inr old ↦ sound.visited node.direction v old
                    ])
                    sound.visited;
              queued =
                  All-imp (λ x c. Queued-Advances rank q n s (with_visit s node) x same c) s.queue
                    sound.queued;
            };
            advances = same;
            bounded = omega arith;
          },
          with_visit-IsMarked s node (omega (arith, size, here.bound)),
        )
  ]

  -- The costs of a node in both directions.
  pub costs_read :
      (s : Dijkstra F) (node : CostNode F) (d : Direction)
      → IsSound rank q n s
      → Queued rank q n s node
      → (c : F) × (get_elem? (of_dir s.costs d) node.idx ≡ some c)
        × (cost_at rank q n (of_dir s.costs d) node.idx ≡ rank c)
  costs_read s node d sound here =
      let (c, e) =
        get_elem?_total (of_dir s.costs d) node.idx
          (omega (arith, (sound.sizes d).0, here.bound)) in
      (c, e, ap rank (get_or-eq (of_dir s.costs d) node.idx c f.infinity e))

  -- A sum below infinity is one of costs that are not infinite, so the node is reached twice.
  total_cost_total :
      (s : Dijkstra F) (node : CostNode F)
      → IsSound rank q n s
      → Queued rank q n s node
      → (total : F) × (total_cost s node ≡ ok total)
        × (rank total < rank f.infinity → (d : Direction) → Reached rank q n d s node.idx)
  unfolding total_cost
  total_cost_total s node sound here =
      let (a, e, at_a) = costs_read s node fwd sound here in
      let (b, e', at_b) = costs_read s node bwd sound here in
      (
        f.add a b,
        rw e (rw e' refl),
        λ less.
            both_of (λ d. Reached rank q n d s node.idx) fwd
              (sound.reached fwd node.idx
                (λ p. omega (arith, laws.absorbing a b (inl (sym at_a ∙ p)), less)))
              (sound.reached bwd node.idx
                (λ p. omega (arith, laws.absorbing a b (inr (sym at_b ∙ p)), less))),
      )

  is_meeting_total :
      (s : Dijkstra F) (node : CostNode F)
      → IsSound rank q n s
      → Queued rank q n s node
      → IsMarked s node
      → (b : Bool) × (is_meeting_costnode s node ≡ ok b)
        × (b ≡ true → Reached rank q n (opposite node.direction) s node.idx)
  unfolding is_meeting_costnode
  is_meeting_total s node sound here marked = elim (Bool-cases s.is_ch_dijkstra) [
    | inl ch ↦
        let (c, e, at_c) = costs_read s node (opposite node.direction) sound here in
        (
          not (feq c f.infinity),
          rw ch (rw e refl),
          λ h.
              let differ : rank c ≢ rank f.infinity =
                (let k = feq-eq-== rank laws.ranked c f.infinity in ground (arith, h, k)) in
              sound.reached (opposite node.direction) node.idx (λ p. differ (sym at_c ∙ p)),
        )
    | inr plain ↦
        let (b, e) =
          get_elem?_total (of_dir s.is_visited (opposite node.direction)) node.idx
            (omega (arith, sound.visits plain (opposite node.direction), here.bound)) in
        (
          b,
          rw plain (rw (marked plain, e) refl),
          λ h. sound.visited (opposite node.direction) node.idx (e ∙ ap some h),
        )
  ]

  pub meet_total :
      (s : Dijkstra F) (current : CostNode F) (best : Option (NodeIdx × F))
      → IsSound rank q n s
      → Queued rank q n s current
      → IsMarked s current
      → Meets s best
      → (m : Option (NodeIdx × F) × Bool) × (meet s current best ≡ ok m) × Meets s m.0
  unfolding meet
  meet_total s current none sound here marked met =
      let (b, e, meets) = is_meeting_total s current sound here marked in
      let (total, e', lower) = total_cost_total s current sound here in
      elim (Bool-cases b) [
        | inl yes_b ↦ (
          (some (current.idx, total), false),
          rw (e, yes_b, e') refl,
          both_of (λ d. Reached rank q n d s current.idx) current.direction here.chain
              (meets yes_b),
        )
        | inr no_b ↦ ((none, false), rw (e, no_b) refl, tt)
      ]
  meet_total s current (some (node, best_total)) sound here marked met =
      let (total, e', lower) = total_cost_total s current sound here in
      elim (Bool-cases (flt best_total current.cost)) [
        | inl worse ↦ ((some (node, best_total), true), rw worse refl, met)
        | inr on ↦ elim (Bool-cases (flt total best_total)) [
          | inl less ↦
              let below : rank total < rank f.infinity =
                (let h = sym (flt-eq-ltb rank laws.ranked total best_total) ∙ less in
                  let t = laws.top best_total in ground (arith, h, t)) in
              ((some (current.idx, total), false), rw (on, e', less) refl, lower below)
          | inr more ↦ ((some (node, best_total), false), rw (on, e', more) refl, met)
        ]
      ]
