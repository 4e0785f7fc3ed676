-- ===== src/Routing/Paths/Costs.antt =====
-- A flattened path has the edges of the expansion, and the costs that `calc_costs` would compute.
use osmgraphing.Prelude.{
  ℕ, ◌<◌, ◌≤◌, ◌≡◌, refl, none, some, List, [], ◌∷◌, length, length-replicate, All,
}
use osmgraphing.Rust.Outcome.{ok, collect, collect-cons}
use osmgraphing.Rust.Float.{Float64}
use osmgraphing.Helpers.{add_assign, add_assign-eq-add, length-add_assign}
use osmgraphing.Network.Graph.{
  EdgeIdx, Graph, MetricAccessor, fwd_edges, metrics_of, metrics_at, edge_count,
}
use osmgraphing.Routing.Paths.{RoutePath, fold_costs, zero_costs, try_flatten, calc_costs}
use osmgraphing.Routing.Paths.Expansion.{ExpandsAll, summed, flatten_loop_total}

module _ {F : Type 0} ⦃f : Float64 F⦄ where
  fold_costs-summed :
      (m : MetricAccessor F) (costs : List F) (es : List EdgeIdx) (mss : List (List F))
      → collect (metrics_at m) es ≡ ok mss
      → All (λ ms. length costs ≤ length ms) mss
      → fold_costs m costs es ≡ ok (summed costs mss)
  unfolding fold_costs
  fold_costs-summed m costs [] mss reads long = (let e : mss ≡ [] = cc in rw e refl)
  fold_costs-summed m costs (e ∷ es) mss reads long =
      let (ms, mss', read, reads', shape) = collect-cons (metrics_at m) e es mss reads in
      let (head_long, rest_long) =
        (let l : All (λ ms. length costs ≤ length ms) (ms ∷ mss') = rw shape at long in l) in
      let kept = length-add_assign costs ms in
      let ih = fold_costs-summed m (add_assign costs ms) es mss' reads' (rw kept rest_long) in
      rw (read, ← add_assign-eq-add costs ms head_long, shape) ih

module _ {F C : Type 0} ⦃f : Float64 F⦄ (g : Graph F C) where
  -- If the edges of a path expand by the graph's shortcuts to `out`, no longer than the graph has
  -- edges, with metrics that can be read and have at least the graph's dimension, then
  -- `try_flatten` succeeds with more fuel than `out` is long: the flattened path has the edges
  -- `out`, and it is the path that `calc_costs` makes of the path with these edges.
  pub try_flatten_correct :
      (fuel : ℕ) (p : RoutePath F) (out : List EdgeIdx) (mss : List (List F))
      → ExpandsAll (fwd_edges g) p.edges out
      → length out ≤ edge_count (fwd_edges g)
      → collect (metrics_at (metrics_of g)) out ≡ ok mss
      → All (λ ms. g.cfg.dim ≤ length ms) mss
      → length out < fuel
      → (t : RoutePath F) × (try_flatten g fuel p ≡ some (ok t))
        × (t.edges ≡ out)
        × (calc_costs g (record p { edges = out; costs = none }) ≡ ok t)
  unfolding try_flatten calc_costs metrics_of
  try_flatten_correct fuel p out mss all small reads long enough =
      let m = metrics_of g in
      let dim = length-replicate g.cfg.dim f.zero in
      let flat =
        flatten_loop_total (fwd_edges g) m fuel p.edges out [] (zero_costs m) mss all small reads
          enough in
      let folded = fold_costs-summed m (zero_costs m) out mss reads (rw dim long) in
      (
        record p { edges = out; costs = some (summed (zero_costs m) mss) },
        rw (flat, try_flatten) refl,
        refl,
        rw (folded) refl,
      )
