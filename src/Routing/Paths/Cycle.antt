-- ===== src/Routing/Paths/Cycle.antt =====
-- A shortcut that contains itself as its second half: the guard against cycles looks at the height
-- of the stack, which does not grow here.
use osmgraphing.Prelude.{
  ℕ, zero, suc, ◌+◌, ◌≤◌, ◌≡◌, refl, ap, ◌∙◌, none, some, List, [], ◌∷◌, ◌++◌, length, arith, ltb,
  false,
}
use osmgraphing.Rust.Outcome.{ok}
use osmgraphing.Rust.Float.{Float64}
use osmgraphing.Helpers.{add_assign}
use osmgraphing.Network.Graph.{
  EdgeIdx, EdgeAccessor, MetricAccessor, sc_edges_at, metrics_at, edge_count,
}
use osmgraphing.Routing.Paths.{descend, flatten_loop}
use osmgraphing.Routing.Paths.Expansion.{flatten_step, not_ltb}

module _ {F : Type 0} ⦃f : Float64 F⦄ (a : EdgeAccessor F) (m : MetricAccessor F) (e x : EdgeIdx)
    (ms : List F) (loops : sc_edges_at a e ≡ ok (some (x, e))) (leaf : sc_edges_at a x ≡ ok none)
    (reads : metrics_at m x ≡ ok ms) where
  descend_cycle :
      (n : ℕ) (stack : List EdgeIdx)
      → length (e ∷ stack) ≤ edge_count a
      → descend a (suc (suc n)) stack e ≡ some (ok (x, e ∷ stack))
  unfolding descend
  descend_cycle n stack h =
      let fits : ltb (edge_count a) (length (e ∷ stack)) ≡ false = not_ltb h in
      rw (loops, descend) (rw (fits, leaf, descend) refl)

  -- If an edge is a shortcut whose second half is the edge itself and whose first half is a plain
  -- edge with metrics, and the stack is no higher than the graph has edges, then the loop that
  -- flattens a stack with this edge on top ends for no fuel, so the guard against cycles does not
  -- fire.
  pub flatten_loop_cycle :
      (fuel : ℕ) (stack edges : List EdgeIdx) (costs : List F)
      → length (e ∷ stack) ≤ edge_count a
      → flatten_loop a m fuel (e ∷ stack) edges costs ≡ none
  flatten_loop_cycle zero stack edges costs h = unfold flatten_loop in refl
  flatten_loop_cycle (suc fuel) stack edges costs h =
      let rounds : edge_count a + 2 ≡ suc (suc (edge_count a)) = omega arith in
      flatten_step a m fuel e x stack (e ∷ stack) edges costs ms
        (ap (λ n. descend a n stack e) rounds ∙ descend_cycle (edge_count a) stack h) reads
      ∙ flatten_loop_cycle fuel stack (edges ++ x ∷ []) (add_assign costs ms) h
