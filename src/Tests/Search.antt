-- ===== src/Tests/Search.antt =====
-- Three nodes in a circle, and a query from the first to the last.
use osmgraphing.Prelude.{
  ℕ, zero, suc, ◌+◌, ◌*◌, ◌-◌, ◌<◌, ◌≤◌, ◌≡◌, refl, Option, none, some, List, [], ◌∷◌, arith, All,
  false, compare, ltb, if◌then◌else◌,
}
use osmgraphing.Prelude.Int.{ℤ, pos}
use osmgraphing.Rust.Outcome.{ok}
use osmgraphing.Rust.Float.{Float64}
use osmgraphing.Helpers.{dot_product, dot_from}
use osmgraphing.Network.Graph.{
  NodeIdx, Graph, HalfEdge, fwd_edges, bwd_edges, metrics_of, metrics_at, nodes, node_count,
  node_id, node_level, dst_idx, starting_from, offset_indices, half_edge,
}
use osmgraphing.Routing.Paths.{RoutePath}
use osmgraphing.Routing.Dijkstra.State.{Direction, fwd, bwd, Dijkstra, new_dijkstra}
use osmgraphing.Routing.Dijkstra.Search.{
  dijkstra, Query, xwd_edges, has_negative, compute_best_path,
}
use osmgraphing.Routing.Dijkstra.Relax.{IsLeaving, IsRoutable}
use osmgraphing.Routing.Dijkstra.Meeting.{IsCost}
use osmgraphing.Routing.Dijkstra.Correct.{Answer, compute_best_path_correct}

-- Numbers up to an infinity, at which sums stop.
abbrev capped : ℕ → ℕ
capped a = if ltb a 1000000 then a else 1000000

abbrev costs : Float64 ℕ
costs = record {
  zero = 0;
  infinity = 1000000;
  f64_abs = 1;
  of_usize = λ n. n;
  add = λ a b. capped (a + b);
  sub = λ a b. a - b;
  mul = λ a b. a * b;
  div = λ a b. a;
  round = λ a. a;
  abs = λ a. a;
  partial_cmp = λ a b. some (compare (capped a) (capped b));
}

costs-IsCost : IsCost costs capped
costs-IsCost = record {
  ranked = λ a b. refl;
  top = λ a. ground arith;
  absorbing = λ a b h. ground (arith, h);
}

abbrev circle : Graph ℕ ℕ
circle = record {
  cfg = record { dim = 1; are_normalized = false };
  node_ids = pos 10 ∷ pos 11 ∷ pos 12 ∷ [];
  node_coords = 0 ∷ 1 ∷ 2 ∷ [];
  node_ch_levels = 0 ∷ 0 ∷ 0 ∷ [];
  fwd_dsts = 1 ∷ 2 ∷ 0 ∷ [];
  fwd_offsets = 0 ∷ 1 ∷ 2 ∷ 3 ∷ [];
  fwd_to_fwd_map = 0 ∷ 1 ∷ 2 ∷ [];
  bwd_dsts = 0 ∷ 1 ∷ 2 ∷ [];
  bwd_offsets = 0 ∷ 1 ∷ 2 ∷ 3 ∷ [];
  bwd_to_fwd_map = 2 ∷ 0 ∷ 1 ∷ [];
  metrics = (3 ∷ []) ∷ (7 ∷ []) ∷ (4 ∷ []) ∷ [];
  means = none;
  edge_ids = none ∷ none ∷ none ∷ [];
  edge_ids_to_idx_map = [];
  sc_offsets = 0 ∷ 0 ∷ 0 ∷ 0 ∷ [];
  sc_edges = [];
}

abbrev circle_query : Query ℕ ℕ
circle_query = record {
  src_idx = 0;
  dst_idx = 2;
  graph = circle;
  routing_algo = dijkstra;
  alphas = 1 ∷ [];
}

abbrev half : Direction → ℕ → HalfEdge ℕ
half d e = record { idx = e; edge_accessor = xwd_edges ⦃f = costs⦄ circle d }

circle-IsLeaving :
    (d : Direction) (u : NodeIdx)
    → u < 3
    → (hs : List (HalfEdge ℕ)) × (starting_from (xwd_edges ⦃f = costs⦄ circle d) u ≡ ok hs)
      × All (IsLeaving ⦃f = costs⦄ capped circle_query 3 d u) hs
unfolding starting_from offset_indices half_edge xwd_edges fwd_edges bwd_edges metrics_of dst_idx
    metrics_at dot_product dot_from
circle-IsLeaving fwd zero h = (
  half fwd 0 ∷ [],
  refl,
  (
    record {
      accessor = refl;
      dst = 1;
      bound = omega arith;
      leads = (refl, refl);
      metrics = 3 ∷ [];
      read = refl;
      grows = λ a. ground arith;
    },
    tt,
  ),
)
circle-IsLeaving fwd (suc zero) h = (
  half fwd 1 ∷ [],
  refl,
  (
    record {
      accessor = refl;
      dst = 2;
      bound = omega arith;
      leads = (refl, refl);
      metrics = 7 ∷ [];
      read = refl;
      grows = λ a. ground arith;
    },
    tt,
  ),
)
circle-IsLeaving fwd (suc (suc zero)) h = (
  half fwd 2 ∷ [],
  refl,
  (
    record {
      accessor = refl;
      dst = 0;
      bound = omega arith;
      leads = (refl, refl);
      metrics = 4 ∷ [];
      read = refl;
      grows = λ a. ground arith;
    },
    tt,
  ),
)
circle-IsLeaving fwd (suc (suc (suc u))) h = absurd (omega arith)
circle-IsLeaving bwd zero h = (
  half bwd 2 ∷ [],
  refl,
  (
    record {
      accessor = refl;
      dst = 2;
      bound = omega arith;
      leads = (refl, refl);
      metrics = 4 ∷ [];
      read = refl;
      grows = λ a. ground arith;
    },
    tt,
  ),
)
circle-IsLeaving bwd (suc zero) h = (
  half bwd 0 ∷ [],
  refl,
  (
    record {
      accessor = refl;
      dst = 0;
      bound = omega arith;
      leads = (refl, refl);
      metrics = 3 ∷ [];
      read = refl;
      grows = λ a. ground arith;
    },
    tt,
  ),
)
circle-IsLeaving bwd (suc (suc zero)) h = (
  half bwd 1 ∷ [],
  refl,
  (
    record {
      accessor = refl;
      dst = 1;
      bound = omega arith;
      leads = (refl, refl);
      metrics = 7 ∷ [];
      read = refl;
      grows = λ a. ground arith;
    },
    tt,
  ),
)
circle-IsLeaving bwd (suc (suc (suc u))) h = absurd (omega arith)

circle_levels : (u : NodeIdx) → u < 3 → (l : ℕ) × (node_level (nodes circle) u ≡ ok l)
unfolding node_level nodes
circle_levels zero h = (0, refl)
circle_levels (suc zero) h = (0, refl)
circle_levels (suc (suc zero)) h = (0, refl)
circle_levels (suc (suc (suc u))) h = absurd (omega arith)

circle_ids : (u : NodeIdx) → u < 3 → (id : ℤ) × (node_id (nodes circle) u ≡ ok id)
unfolding node_id nodes
circle_ids zero h = (pos 10, refl)
circle_ids (suc zero) h = (pos 11, refl)
circle_ids (suc (suc zero)) h = (pos 12, refl)
circle_ids (suc (suc (suc u))) h = absurd (omega arith)

circle-IsRoutable : IsRoutable ⦃f = costs⦄ capped circle_query 3
circle-IsRoutable = record { levels = circle_levels; ids = circle_ids; leaving = circle-IsLeaving }

compute_best_path_correct_example :
    (k : ℕ) × (s : Dijkstra ℕ) × (r : Option (RoutePath ℕ)) × Answer ⦃f = costs⦄ circle_query r
    × ((fuel : ℕ)
        → k ≤ fuel
        → compute_best_path ⦃f = costs⦄ fuel circle_query (new_dijkstra ⦃f = costs⦄)
          ≡ some (ok (s, r)))
compute_best_path_correct_example =
    compute_best_path_correct ⦃f = costs⦄ capped circle_query 3 costs-IsCost circle-IsRoutable
      (omega arith) (omega arith) (unfold node_count nodes in refl) (omega arith) refl
      (unfold has_negative in refl) (λ e. cc)
