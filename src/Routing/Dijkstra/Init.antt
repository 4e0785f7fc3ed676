-- ===== src/Routing/Dijkstra/Init.antt =====
-- routing/dijkstra.rs: the start of a query on a new `Dijkstra`, where `init_query` compares the
-- new length with the length of the array of the two directions.
use osmgraphing.Prelude.{ℕ, false, some, ◌≡◌, refl, ltb, arith, Bool-cases, inl, inr}
use osmgraphing.Rust.Outcome.{panic, ◌>>=◌}
use osmgraphing.Rust.Float.{Float64}
use osmgraphing.Network.Graph.{nodes, node_count}
use osmgraphing.Routing.Dijkstra.State.{
  new_dijkstra, init_query, init_direction, resize, reset_touched,
}
use osmgraphing.Routing.Dijkstra.Search.{
  RoutingAlgo, dijkstra, ch_dijkstra, explorator, Query, set_algo, start, prepare, run, is_empty,
  has_negative, compute_best_path,
}

module _ {F C : Type 0} ⦃f : Float64 F⦄ where
  start_on_two :
      (q : Query F C) (algo : RoutingAlgo)
      → (set_algo algo (new_dijkstra {F = F}) >>= λ s. init_query 2 s >>= prepare q) ≡ panic
  unfolding set_algo new_dijkstra init_query init_direction reset_touched resize prepare
  start_on_two q dijkstra = let e : ltb q.src_idx 0 ≡ false = ground arith in rw e refl
  start_on_two q ch_dijkstra = let e : ltb q.src_idx 0 ≡ false = ground arith in rw e refl
  start_on_two q explorator = refl

  -- On a graph of two nodes a new `Dijkstra` panics on every query without a negative alpha,
  -- whatever the fuel.
  pub compute_best_path_two_nodes :
      (fuel : ℕ) (q : Query F C)
      → has_negative q.alphas ≡ false
      → node_count (nodes q.graph) ≡ 2
      → compute_best_path fuel q new_dijkstra ≡ some panic
  unfolding compute_best_path start run
  compute_best_path_two_nodes fuel q h k = elim (Bool-cases (is_empty q.alphas)) [
    | inl none_there ↦ rw none_there refl
    | inr some_there ↦ rw (some_there, h, k, start_on_two q q.routing_algo) refl
  ]
