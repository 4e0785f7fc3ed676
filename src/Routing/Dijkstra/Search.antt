-- ===== src/Routing/Dijkstra/Search.antt =====
-- routing/dijkstra.rs, `compute_best_path`: the search and the path that it builds.
use osmgraphing.Prelude.{
  ℕ, zero, suc, Bool, true, false, ◌||◌, Option, none, some, List, [], ◌∷◌, ◌++◌, reverse,
  if◌then◌else◌, ltb,
}
use osmgraphing.Rust.Outcome.{Outcome, ok, err, panic, ◌>>=◌}
use osmgraphing.Rust.Vec.{index, store}
use osmgraphing.Rust.Float.{Float64, flt}
use osmgraphing.Helpers.{dot_product}
use osmgraphing.Network.Graph.{
  NodeIdx, EdgeIdx, Graph, EdgeAccessor, HalfEdge, fwd_edges, bwd_edges, nodes, node_count, node_id,
  node_level, dst_idx, metrics_at, starting_from,
}
use osmgraphing.Routing.Paths.{RoutePath, new_path}
use osmgraphing.Routing.Dijkstra.State.{
  Direction, fwd, bwd, CostNode, Dijkstra, of_dir, put_dir, pop, init_query, visit,
  is_meeting_costnode, has_found_both, has_costnode_improved, total_cost,
}

-- `RoutingAlgo`; the explorator exists with the feature `gpl`.
pub data RoutingAlgo : Type 0 where
  dijkstra ch_dijkstra explorator : RoutingAlgo

pub record Query (F C : Type 0) : Type 0 where
  pub src_idx : NodeIdx
  pub dst_idx : NodeIdx
  pub graph : Graph F C
  pub routing_algo : RoutingAlgo
  pub alphas : List F

-- The variables of the outer loop.
pub record Progress (F : Type 0) : Type 0 where
  pub state : Dijkstra F
  pub best_meeting : Option (NodeIdx × F)

abbrev pub is_none {ℓ} : {A : Type ℓ} → Option A → Bool
is_none none = true
is_none (some _) = false

abbrev pub is_empty {ℓ} : {A : Type ℓ} → List A → Bool
is_empty [] = true
is_empty (_ ∷ _) = false

module _ {F : Type 0} ⦃f : Float64 F⦄ where
  -- `alphas.iter()`: whether one of them is negative.
  unfoldable pub has_negative : List F → Bool
  has_negative [] = false
  has_negative (alpha ∷ alphas) = flt alpha f.zero || has_negative alphas

  -- The edge's end is reached at less cost than before.
  unfoldable pub improve :
      CostNode F → Option (NodeIdx × F) → EdgeIdx → NodeIdx → F → Dijkstra F → Outcome (Dijkstra F)
  improve current best edge dst new_cost s =
      let dir = current.direction in
      store (of_dir s.predecessors dir) dst (some edge) >>= λ preds.
      store (of_dir s.costs dir) dst new_cost >>= λ costs.
      let node : CostNode F = record { idx = dst; cost = new_cost; direction = dir } in
      ok (record s {
        predecessors = put_dir s.predecessors dir preds;
        costs = put_dir s.costs dir costs;
        touched = put_dir s.touched dir (of_dir s.touched dir ++ dst ∷ []);
        queue = if s.is_ch_dijkstra || is_none best then node ∷ s.queue else s.queue;
      })

  -- Behind the visit: the best meeting-node, and whether this direction is finished.
  unfoldable pub meet :
      Dijkstra F → CostNode F → Option (NodeIdx × F) → Outcome (Option (NodeIdx × F) × Bool)
  meet s current none = is_meeting_costnode s current >>= λ meets.
      if meets
      then (total_cost s current >>= λ total. ok (some (current.idx, total), false))
      else ok (none, false)
  meet s current (some (node, best_total)) =
      if flt best_total current.cost
      then ok (some (node, best_total), true)
      else (total_cost s current >>= λ total. ok (
          if flt total best_total
          then (some (current.idx, total), false)
          else (some (node, best_total), false)))

  -- The predecessors' edges from a node on, in the order of the walk.
  unfoldable pub walk :
      ℕ → List (Option EdgeIdx) → EdgeAccessor F → NodeIdx → Option (Outcome (List EdgeIdx))
  walk zero preds opposite_edges cur = none
  walk (suc fuel) preds opposite_edges cur = elim (index preds cur) [
    | ok none ↦ some (ok [])
    | ok (some edge) ↦ elim (dst_idx opposite_edges edge) [
      | ok prev ↦ elim (walk fuel preds opposite_edges prev) [
        | none ↦ none
        | some rest ↦ some (rest >>= λ es. ok (edge ∷ es))
      ]
      | err msg ↦ some (err msg)
      | panic ↦ some panic
    ]
    | err msg ↦ some (err msg)
    | panic ↦ some panic
  ]

module _ {F : Type 0} where
  -- `self.is_ch_dijkstra = match query.routing_cfg.routing_algo`
  unfoldable pub set_algo : RoutingAlgo → Dijkstra F → Outcome (Dijkstra F)
  set_algo dijkstra s = ok (record s { is_ch_dijkstra = false })
  set_algo ch_dijkstra s = ok (record s { is_ch_dijkstra = true })
  set_algo explorator s = panic

module _ {F C : Type 0} ⦃f : Float64 F⦄ where
  -- `xwd_edges[dir]`
  unfoldable pub xwd_edges : Graph F C → Direction → EdgeAccessor F
  unfolding fwd_edges bwd_edges
  xwd_edges g fwd = fwd_edges g
  xwd_edges g bwd = bwd_edges g

  -- Whether the loop over the leaving edges breaks at an edge to `dst`.
  unfoldable pub descends_level : Query F C → Bool → NodeIdx → NodeIdx → Outcome Bool
  descends_level q is_ch current dst =
      if is_ch
      then (node_level (nodes q.graph) current >>= λ here.
          node_level (nodes q.graph) dst >>= λ there. ok (ltb there here))
      else ok false

  -- The loop over the leaving edges.
  unfoldable pub relax :
      Query F C
      → CostNode F
      → Option (NodeIdx × F)
      → List (HalfEdge F)
      → Dijkstra F
      → Outcome (Dijkstra F)
  unfolding improve descends_level
  relax q current best [] s = ok s
  relax q current best (e ∷ es) s = dst_idx e.edge_accessor e.idx >>= λ dst.
      descends_level q s.is_ch_dijkstra current.idx dst >>= λ stops.
      if stops
      then ok s
      else (metrics_at e.edge_accessor.metrics e.idx >>= λ ms.
          index (of_dir s.costs current.direction) dst >>= λ old.
          let new_cost = f.add current.cost (dot_product q.alphas ms) in
          let stepped =
            if flt new_cost old then improve current best e.idx dst new_cost s else ok s in
          stepped >>= relax q current best es)

  -- The body of the outer loop behind the test that breaks it; a `continue` returns.
  unfoldable pub settle : Query F C → CostNode F → Progress F → Outcome (Progress F)
  unfolding relax meet xwd_edges
  settle q current p = has_costnode_improved p.state current >>= λ improved.
      if improved
      then (visit current p.state >>= λ s. meet s current p.best_meeting >>= λ met.
          if met.1
          then ok (record {
            state = record s {
              has_found_best_meeting_node =
                  put_dir s.has_found_best_meeting_node current.direction true;
            };
            best_meeting = met.0;
          })
          else (starting_from (xwd_edges q.graph current.direction) current.idx >>= λ leaving.
              relax q current met.0 leaving s >>= λ s'.
              ok (record { state = s'; best_meeting = met.0 })))
      else ok p

  -- `while let Some(Reverse(current)) = self.queue.pop()`
  unfoldable pub search_loop : ℕ → Query F C → Progress F → Option (Outcome (Progress F))
  unfolding settle
  search_loop zero q p = none
  search_loop (suc fuel) q p = elim (pop p.state.queue) [
    | ok none ↦ some (ok p)
    | ok (some (current, rest)) ↦
        let popped : Progress F = record p { state = record p.state { queue = rest } } in
        let further : Option (Outcome (Progress F)) = (elim (settle q current popped) [
          | ok p' ↦ search_loop fuel q p'
          | err msg ↦ some (err msg)
          | panic ↦ some panic
        ]) in
        if has_found_both p.state then some (ok popped) else further
    | err msg ↦ some (err msg)
    | panic ↦ some panic
  ]

  -- The two first nodes, and what is known of them.
  unfoldable pub prepare : Query F C → Dijkstra F → Outcome (Dijkstra F)
  prepare q s =
      let source : CostNode F = record { idx = q.src_idx; cost = f.zero; direction = fwd } in
      let target : CostNode F = record { idx = q.dst_idx; cost = f.zero; direction = bwd } in
      store s.costs.forward q.src_idx f.zero >>= λ from_source.
      store s.costs.backward q.dst_idx f.zero >>= λ from_target. ok (record s {
        queue = target ∷ source ∷ s.queue;
        costs = record { forward = from_source; backward = from_target };
        touched = record {
          forward = s.touched.forward ++ q.src_idx ∷ [];
          backward = s.touched.backward ++ q.dst_idx ∷ [];
        };
      })

  -- The path over a meeting node.
  unfoldable pub build_path : ℕ → Query F C → Dijkstra F → NodeIdx → Option (Outcome (RoutePath F))
  unfolding walk
  build_path fuel q s meeting =
      elim (walk fuel s.predecessors.forward (bwd_edges q.graph) meeting) [
        | none ↦ none
        | some fwd_part ↦ elim (walk fuel s.predecessors.backward (fwd_edges q.graph) meeting) [
          | none ↦ none
          | some bwd_part ↦ some (
              fwd_part >>= λ before. bwd_part >>= λ behind.
              node_id (nodes q.graph) q.src_idx >>= λ src_id.
              node_id (nodes q.graph) q.dst_idx >>= λ dst_id.
              ok (new_path q.src_idx src_id q.dst_idx dst_id (reverse before ++ behind)))
        ]
      ]

  -- Everything before the outer loop.
  unfoldable pub start : Query F C → Dijkstra F → Outcome (Dijkstra F)
  unfolding set_algo prepare
  start q s =
      set_algo q.routing_algo s >>= λ s'. init_query (node_count (nodes q.graph)) s' >>= prepare q

  -- What is done with the state behind the loop.
  unfoldable pub finish :
      ℕ → Query F C → Progress F → Option (Outcome (Dijkstra F × Option (RoutePath F)))
  unfolding build_path
  finish fuel q p = elim p.best_meeting [
    | none ↦ some (ok (p.state, none))
    | some meeting ↦ elim (build_path fuel q p.state meeting.0) [
      | none ↦ none
      | some path ↦ some (path >>= λ found. ok (p.state, some found))
    ]
  ]

  -- Everything behind the start.
  unfoldable pub run :
      ℕ → Query F C → Outcome (Dijkstra F) → Option (Outcome (Dijkstra F × Option (RoutePath F)))
  unfolding search_loop finish
  run fuel q started = elim started [
    | ok s ↦ elim (search_loop fuel q (record { state = s; best_meeting = none })) [
      | none ↦ none
      | some (ok p) ↦ finish fuel q p
      | some (err msg) ↦ some (err msg)
      | some panic ↦ some panic
    ]
    | err msg ↦ some (err msg)
    | panic ↦ some panic
  ]

  -- `compute_best_path`: the state behind it, and the path. There has to be an alpha
  -- (`debug_assert!`).
  unfoldable pub compute_best_path :
      ℕ → Query F C → Dijkstra F → Option (Outcome (Dijkstra F × Option (RoutePath F)))
  unfolding has_negative start run
  compute_best_path fuel q s =
      if is_empty q.alphas
      then some panic
      else if has_negative q.alphas
      then some (ok (s, none))
      else run fuel q (start q s)
