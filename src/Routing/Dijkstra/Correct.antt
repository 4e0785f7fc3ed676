-- ===== src/Routing/Dijkstra/Correct.antt =====
-- routing/dijkstra.rs, `compute_best_path` on a new `Dijkstra`: it ends, and a path that it returns
-- leads from the source to the destination.
use osmgraphing.Prelude.{
  ℕ, suc, ◌+◌, ◌<◌, ◌≤◌, ◌≡◌, ◌≢◌, refl, Bool, true, false, Option, none, some, List, ◌++◌, reverse,
  arith,
}
use osmgraphing.Prelude.Int.{ℤ}
use osmgraphing.Rust.Outcome.{ok}
use osmgraphing.Rust.Float.{Float64}
use osmgraphing.Network.Graph.{NodeIdx, EdgeIdx, nodes, node_count, node_id}
use osmgraphing.Routing.Paths.{RoutePath, new_path}
use osmgraphing.Routing.Dijkstra.State.{Direction, fwd, bwd, Dijkstra, new_dijkstra}
use osmgraphing.Routing.Dijkstra.Search.{
  RoutingAlgo, dijkstra, ch_dijkstra, explorator, Query, Progress, xwd_edges, walk, is_empty,
  has_negative, set_algo, start, search_loop, build_path, finish, run, compute_best_path,
}
use osmgraphing.Routing.Dijkstra.Walk.{
  IsWalk, IsWalk-append, BackWalk-fwd, BackWalk-bwd, walk_total,
}
use osmgraphing.Routing.Dijkstra.Sides.{measure, Reached}
use osmgraphing.Routing.Dijkstra.Relax.{IsRoutable}
use osmgraphing.Routing.Dijkstra.Meeting.{IsCost, Meets}
use osmgraphing.Routing.Dijkstra.Loop.{IsSearched, search_loop_total}
use osmgraphing.Routing.Dijkstra.Start.{started, start_new, IsSound-started}

module _ {F C : Type 0} ⦃f : Float64 F⦄ (q : Query F C) where
  -- The path leads from the query's source to its destination.
  pub record IsPath (p : RoutePath F) : Type 0 where
    pub from_source : p.src_idx ≡ q.src_idx
    pub to_target : p.dst_idx ≡ q.dst_idx
    pub from_id : node_id (nodes q.graph) q.src_idx ≡ ok p.src_id
    pub to_id : node_id (nodes q.graph) q.dst_idx ≡ ok p.dst_id
    pub walks : IsWalk q.graph q.src_idx p.edges q.dst_idx

  -- No path, or one that leads from the source to the destination.
  pub data Answer : Option (RoutePath F) → Type 0 where
    no_path : Answer none
    a_path : {p : RoutePath F} → IsPath p → Answer (some p)

module _ {F C : Type 0} ⦃f : Float64 F⦄ (rank : F → ℕ) (q : Query F C) (n : ℕ)
    (laws : IsCost f rank) (routable : IsRoutable rank q n) (src_bound : q.src_idx < n)
    (dst_bound : q.dst_idx < n) where
  build_path_reads :
      (s : Dijkstra F) (meeting : NodeIdx) (before behind : List EdgeIdx) (src_id dst_id : ℤ)
      (fuel : ℕ)
      → walk fuel s.predecessors.forward (xwd_edges q.graph bwd) meeting ≡ some (ok before)
      → walk fuel s.predecessors.backward (xwd_edges q.graph fwd) meeting ≡ some (ok behind)
      → node_id (nodes q.graph) q.src_idx ≡ ok src_id
      → node_id (nodes q.graph) q.dst_idx ≡ ok dst_id
      → build_path fuel q s meeting
        ≡ some (ok (new_path q.src_idx src_id q.dst_idx dst_id (reverse before ++ behind)))
  unfolding build_path xwd_edges
  build_path_reads s meeting before behind src_id dst_id fuel w w' e e' =
      rw (w, build_path) (rw (w', build_path) (rw (e, e') refl))

  new_path-IsPath :
      (src_id dst_id : ℤ) (es : List EdgeIdx)
      → node_id (nodes q.graph) q.src_idx ≡ ok src_id
      → node_id (nodes q.graph) q.dst_idx ≡ ok dst_id
      → IsWalk q.graph q.src_idx es q.dst_idx
      → IsPath q (new_path q.src_idx src_id q.dst_idx dst_id es)
  unfolding new_path
  new_path-IsPath src_id dst_id es e e' h = record {
    from_source = refl;
    to_target = refl;
    from_id = e;
    to_id = e';
    walks = h;
  }

  build_path_total :
      (s : Dijkstra F) (meeting : NodeIdx)
      → ((d : Direction) → Reached rank q n d s meeting)
      → (k : ℕ) × (p : RoutePath F) × IsPath q p
        × ((fuel : ℕ) → k ≤ fuel → build_path fuel q s meeting ≡ some (ok p))
  build_path_total s meeting reached =
      let (before, to_source, w) = walk_total q.graph fwd s.predecessors.forward (reached fwd) in
      let (behind, to_target, w') = walk_total q.graph bwd s.predecessors.backward (reached bwd) in
      let (src_id, e) = routable.ids q.src_idx src_bound in
      let (dst_id, e') = routable.ids q.dst_idx dst_bound in
      let whole =
        IsWalk-append q.graph q.src_idx meeting q.dst_idx (reverse before) behind
          (BackWalk-fwd q.graph meeting q.src_idx before to_source)
          (BackWalk-bwd q.graph meeting q.dst_idx behind to_target) in
      (
        w.0 + w'.0,
        new_path q.src_idx src_id q.dst_idx dst_id (reverse before ++ behind),
        new_path-IsPath src_id dst_id (reverse before ++ behind) e e' whole,
        λ fuel h.
            build_path_reads s meeting before behind src_id dst_id fuel (w.1 fuel (omega arith))
              (w'.1 fuel (omega arith)) e e',
      )

  finish_total :
      (p : Progress F)
      → IsSearched rank q n laws routable p
      → (k : ℕ) × (r : Option (RoutePath F)) × Answer q r
        × ((fuel : ℕ) → k ≤ fuel → finish fuel q p ≡ some (ok (p.state, r)))
  finish_total p h = go p.best_meeting refl h.meets
    where
      go :
          (best : Option (NodeIdx × F))
          → p.best_meeting ≡ best
          → Meets rank q n laws routable p.state best
          → (k : ℕ) × (r : Option (RoutePath F)) × Answer q r
            × ((fuel : ℕ) → k ≤ fuel → finish fuel q p ≡ some (ok (p.state, r)))
      go none e m = (0, none, no_path, λ fuel h. unfold finish in rw (e, finish) refl)
      go (some (meeting, total)) e m =
          let (k, path, is_path, builds) = build_path_total p.state meeting m in
          (
            k,
            some path,
            a_path is_path,
            λ fuel h. unfold finish in rw (e, finish) (rw (builds fuel h, finish) refl),
          )

  run_reads :
      (fuel : ℕ) (s : Dijkstra F) (p : Progress F) (r : Option (RoutePath F))
      → search_loop fuel q (record { state = s; best_meeting = none }) ≡ some (ok p)
      → finish fuel q p ≡ some (ok (p.state, r))
      → run fuel q (ok s) ≡ some (ok (p.state, r))
  unfolding run
  run_reads fuel s p r searches finishes = rw (searches, run) finishes

  compute_reads :
      (fuel : ℕ) (s : Dijkstra F) (answer : Dijkstra F × Option (RoutePath F))
      → is_empty q.alphas ≡ false
      → has_negative q.alphas ≡ false
      → start q new_dijkstra ≡ ok s
      → run fuel q (ok s) ≡ some (ok answer)
      → compute_best_path fuel q new_dijkstra ≡ some (ok answer)
  unfolding compute_best_path
  compute_reads fuel s answer there positive starts runs = rw (there, positive, starts) runs

  set_algo_new :
      (algo : RoutingAlgo)
      → algo ≢ explorator
      → (is_ch : Bool) × (set_algo algo (new_dijkstra {F = F})
          ≡ ok (record (new_dijkstra {F = F}) { is_ch_dijkstra = is_ch }))
  unfolding set_algo
  set_algo_new dijkstra h = (false, refl)
  set_algo_new ch_dijkstra h = (true, refl)
  set_algo_new explorator h = absurd (h refl)

  -- If the operations on costs order them like their ranks (so no cost is NaN), no cost is above
  -- infinity and no sum with infinity is below it, the arrays belong to the graph's n nodes, n is
  -- not 2, the half-edges and the metrics of every node can be read, no half-edge lowers a cost by
  -- its own costs, there is an alpha and none is negative, the algorithm is not the explorator,
  -- and source and destination are nodes, then there is an answer with which `compute_best_path`
  -- ends on a new `Dijkstra` with any fuel from some number on: either it has no path, or it has a
  -- path that carries the ends of the query and the ids that the graph has for them, and whose
  -- edges lead one behind the other from the source to the destination.
  pub compute_best_path_correct :
      node_count (nodes q.graph) ≡ n
      → n ≢ 2
      → is_empty q.alphas ≡ false
      → has_negative q.alphas ≡ false
      → q.routing_algo ≢ explorator
      → (k : ℕ) × (s : Dijkstra F) × (r : Option (RoutePath F)) × Answer q r
        × ((fuel : ℕ) → k ≤ fuel → compute_best_path fuel q new_dijkstra ≡ some (ok (s, r)))
  compute_best_path_correct count apart there positive plain =
      let (is_ch, algo) = set_algo_new q.routing_algo plain in
      let s = started rank q n is_ch in
      let first : Progress F = record { state = s; best_meeting = none } in
      let sound = IsSound-started rank q n src_bound dst_bound is_ch in
      let (p, searched, searches) =
        search_loop_total rank q n laws routable (measure rank s) first
          (record { sound = sound; meets = tt }) (omega arith) in
      let (k, r, answer, finishes) = finish_total p searched in
      let starts = start_new rank q n src_bound dst_bound is_ch count apart algo in
      (
        suc (measure rank s + k),
        p.state,
        r,
        answer,
        λ fuel h.
            compute_reads fuel s (p.state, r) there positive starts
              (run_reads fuel s p r (searches fuel (omega arith)) (finishes fuel (omega arith))),
      )
