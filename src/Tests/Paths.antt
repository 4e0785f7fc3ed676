-- ===== src/Tests/Paths.antt =====
-- Paths over the shortcut of three edges, and a query on two nodes.
use osmgraphing.Prelude.{ℕ, ◌≡◌, refl, none, some, [], ◌∷◌, ◌++◌, arith, false}
use osmgraphing.Prelude.Int.{pos}
use osmgraphing.Rust.Outcome.{ok, panic}
use osmgraphing.Network.Graph.{Graph, fwd_edges, metrics_of, metrics_at, sc_edges_at, edge_count}
use osmgraphing.Routing.Paths.{RoutePath, new_path, try_flatten, flatten_loop, calc_costs}
use osmgraphing.Routing.Paths.Expansion.{
  plain, shortcut, ExpandsAll, nil, cons, summed, flatten_loop_total,
}
use osmgraphing.Routing.Paths.Costs.{try_flatten_correct}
use osmgraphing.Routing.Paths.Cycle.{flatten_loop_cycle}
use osmgraphing.Routing.Dijkstra.State.{new_dijkstra}
use osmgraphing.Routing.Dijkstra.Search.{Query, dijkstra, compute_best_path, has_negative}
use osmgraphing.Routing.Dijkstra.Init.{compute_best_path_two_nodes}
use osmgraphing.Network.Graph.{nodes, node_count}
use osmgraphing.Tests.Numbers.{numbers}

abbrev triangle : Graph ℕ ℕ
triangle = record {
  cfg = record { dim = 1; are_normalized = false };
  node_ids = pos 10 ∷ pos 11 ∷ pos 12 ∷ [];
  node_coords = 0 ∷ 1 ∷ 2 ∷ [];
  node_ch_levels = 1 ∷ 0 ∷ 1 ∷ [];
  fwd_dsts = 1 ∷ 2 ∷ 2 ∷ [];
  fwd_offsets = 0 ∷ 2 ∷ 3 ∷ [];
  fwd_to_fwd_map = 0 ∷ 1 ∷ 2 ∷ [];
  bwd_dsts = 0 ∷ 0 ∷ 1 ∷ [];
  bwd_offsets = 0 ∷ 0 ∷ 1 ∷ 3 ∷ [];
  bwd_to_fwd_map = 0 ∷ 1 ∷ 2 ∷ [];
  metrics = (3 ∷ []) ∷ (7 ∷ []) ∷ (4 ∷ []) ∷ [];
  means = none;
  edge_ids = none ∷ none ∷ none ∷ [];
  edge_ids_to_idx_map = [];
  sc_offsets = 0 ∷ 0 ∷ 1 ∷ 1 ∷ [];
  sc_edges = (0, 2) ∷ [];
}

abbrev over_shortcut : RoutePath ℕ
over_shortcut = new_path ⦃f = numbers⦄ 0 (pos 10) 2 (pos 12) (1 ∷ [])

expands : ExpandsAll (fwd_edges triangle) (1 ∷ []) (0 ∷ 2 ∷ [])
unfolding sc_edges_at fwd_edges
expands = cons (shortcut {first = 0} {second = 2} refl (plain refl) (plain refl)) nil

over_expands : ExpandsAll (fwd_edges triangle) over_shortcut.edges (0 ∷ 2 ∷ [])
unfolding new_path
over_expands = expands

try_flatten_example :
    (t : RoutePath ℕ) × (try_flatten ⦃f = numbers⦄ triangle 3 over_shortcut ≡ some (ok t))
    × (t.edges ≡ 0 ∷ 2 ∷ [])
    × (calc_costs ⦃f = numbers⦄ triangle (record over_shortcut { edges = 0 ∷ 2 ∷ []; costs = none })
        ≡ ok t)
try_flatten_example =
    try_flatten_correct ⦃f = numbers⦄ triangle 3 over_shortcut (0 ∷ 2 ∷ [])
      ((3 ∷ []) ∷ (4 ∷ []) ∷ []) over_expands (unfold edge_count fwd_edges in omega arith)
      (unfold metrics_at metrics_of in refl) (omega arith, (omega arith, tt)) (omega arith)

flatten_loop_example :
    flatten_loop ⦃f = numbers⦄ (fwd_edges triangle) (metrics_of triangle) 3 (1 ∷ []) [] (0 ∷ [])
    ≡ some (ok ([] ++ 0 ∷ 2 ∷ [], summed ⦃f = numbers⦄ (0 ∷ []) ((3 ∷ []) ∷ (4 ∷ []) ∷ [])))
flatten_loop_example =
    flatten_loop_total ⦃f = numbers⦄ (fwd_edges triangle) (metrics_of triangle) 3 (1 ∷ [])
      (0 ∷ 2 ∷ []) [] (0 ∷ []) ((3 ∷ []) ∷ (4 ∷ []) ∷ []) expands
      (unfold edge_count fwd_edges in omega arith) (unfold metrics_at metrics_of in refl)
      (omega arith)

-- The shortcut 1 has itself as its second half.
abbrev looping : Graph ℕ ℕ
looping = record triangle { sc_edges = (0, 1) ∷ [] }

flatten_loop_cycle_example :
    flatten_loop ⦃f = numbers⦄ (fwd_edges looping) (metrics_of looping) 9 (1 ∷ []) [] (0 ∷ [])
    ≡ none
flatten_loop_cycle_example =
    flatten_loop_cycle ⦃f = numbers⦄ (fwd_edges looping) (metrics_of looping) 1 0 (3 ∷ [])
      (unfold sc_edges_at fwd_edges in refl) (unfold sc_edges_at fwd_edges in refl)
      (unfold metrics_at metrics_of in refl) 9 [] [] (0 ∷ [])
      (unfold edge_count fwd_edges in omega arith)

abbrev pair : Graph ℕ ℕ
pair = record triangle { node_ids = pos 10 ∷ pos 11 ∷ [] }

abbrev query : Query ℕ ℕ
query = record { src_idx = 0; dst_idx = 1; graph = pair; routing_algo = dijkstra; alphas = 1 ∷ [] }

compute_best_path_example :
    compute_best_path ⦃f = numbers⦄ 5 query (new_dijkstra ⦃f = numbers⦄) ≡ some panic
compute_best_path_example =
    compute_best_path_two_nodes ⦃f = numbers⦄ 5 query (unfold has_negative in refl)
      (unfold node_count nodes in refl)
