-- ===== src/Routing/Paths.antt =====
-- routing/paths.rs: a path's costs and the flattening of its shortcuts. The stack `old_edges` is a
-- list whose head is the top, so the reversed path is the path. The loops take fuel; `none` means
-- that it ran out.
pub mod Expansion
pub mod Costs
pub mod Cycle
use osmgraphing.Prelude.{
  ℕ, zero, suc, ◌+◌, Bool, Option, none, some, List, [], ◌∷◌, ◌++◌, length, replicate,
  if◌then◌else◌, ltb,
}
use osmgraphing.Prelude.Int.{ℤ}
use osmgraphing.Rust.Outcome.{Outcome, ok, err, panic, expect, ◌>>=◌, shortcut_cycle}
use osmgraphing.Rust.Float.{Float64}
use osmgraphing.Helpers.{add, add_assign}
use osmgraphing.Network.Graph.{
  NodeIdx, EdgeIdx, Graph, EdgeAccessor, MetricAccessor, fwd_edges, metrics_of, metrics_at,
  sc_edges_at, edge_count,
}

pub record RoutePath (F : Type 0) : Type 0 where
  pub src_idx : NodeIdx
  pub src_id : ℤ
  pub dst_idx : NodeIdx
  pub dst_id : ℤ
  pub edges : List EdgeIdx
  pub costs : Option (List F)

-- `while let Some(sc_edges) = fwd_edges.sc_edges(edge_idx)`: the edge reached and the stack.
unfoldable pub descend :
    {F : Type 0}
    → EdgeAccessor F
    → ℕ
    → List EdgeIdx
    → EdgeIdx
    → Option (Outcome (EdgeIdx × List EdgeIdx))
descend a zero old_edges edge_idx = none
descend a (suc fuel) old_edges edge_idx = elim (sc_edges_at a edge_idx) [
  | ok none ↦ some (ok (edge_idx, old_edges))
  | ok (some (first, second)) ↦
      let rest = descend a fuel (second ∷ old_edges) first in
      if ltb (edge_count a) (length (second ∷ old_edges)) then some (err shortcut_cycle) else rest
  | err msg ↦ some (err msg)
  | panic ↦ some panic
]

module _ {F : Type 0} ⦃f : Float64 F⦄ where
  -- `Path::new`
  unfoldable pub new_path : NodeIdx → ℤ → NodeIdx → ℤ → List EdgeIdx → RoutePath F
  new_path src_idx src_id dst_idx dst_id edges = record {
    src_idx = src_idx;
    src_id = src_id;
    dst_idx = dst_idx;
    dst_id = dst_id;
    edges = edges;
    costs = none;
  }

  -- `Path::costs`
  unfoldable pub costs_of : RoutePath F → Outcome (List F)
  costs_of p = expect p.costs

  -- The fold of `calc_costs` over the edges.
  unfoldable pub fold_costs : MetricAccessor F → List F → List EdgeIdx → Outcome (List F)
  unfolding metrics_at
  fold_costs m acc [] = ok acc
  fold_costs m acc (e ∷ es) = metrics_at m e >>= λ ms. fold_costs m (add acc ms) es

  -- `smallvec![0.0; dim]`
  abbrev pub zero_costs : MetricAccessor F → List F
  zero_costs m = replicate m.cfg.dim f.zero

  -- `Path::calc_costs`
  unfoldable pub calc_costs : {C : Type 0} → Graph F C → RoutePath F → Outcome (RoutePath F)
  unfolding fold_costs metrics_of
  calc_costs g p = elim p.costs [
    | some _ ↦ ok p
    | none ↦ fold_costs (metrics_of g) (zero_costs (metrics_of g)) p.edges >>= λ cs.
        ok (record p { costs = some cs })
  ]

  -- `while let Some(mut edge_idx) = old_edges.pop()`. Each round of the inner loop pushes an edge,
  -- so it ends within `edge_count + 2` rounds.
  unfoldable pub flatten_loop :
      EdgeAccessor F
      → MetricAccessor F
      → ℕ
      → List EdgeIdx
      → List EdgeIdx
      → List F
      → Option (Outcome (List EdgeIdx × List F))
  unfolding descend
  flatten_loop a m zero old_edges edges costs = none
  flatten_loop a m (suc fuel) [] edges costs = some (ok (edges, costs))
  flatten_loop a m (suc fuel) (e ∷ old_edges) edges costs =
      elim (descend a (edge_count a + 2) old_edges e) [
        | none ↦ none
        | some (ok (edge_idx, stack)) ↦ elim (metrics_at m edge_idx) [
          | ok ms ↦ flatten_loop a m fuel stack (edges ++ edge_idx ∷ []) (add_assign costs ms)
          | err msg ↦ some (err msg)
          | panic ↦ some panic
        ]
        | some (err msg) ↦ some (err msg)
        | some panic ↦ some panic
      ]

  -- `Path::try_flatten`
  unfoldable pub try_flatten :
      {C : Type 0} → Graph F C → ℕ → RoutePath F → Option (Outcome (RoutePath F))
  unfolding flatten_loop fwd_edges metrics_of
  try_flatten g fuel p =
      elim (flatten_loop (fwd_edges g) (metrics_of g) fuel p.edges [] (zero_costs (metrics_of g))) [
        | none ↦ none
        | some r ↦
            some (r >>= λ (edges, costs). ok (record p { edges = edges; costs = some costs }))
      ]

  -- `Path::flatten`
  unfoldable pub flatten :
      {C : Type 0} → Graph F C → ℕ → RoutePath F → Option (Outcome (RoutePath F))
  unfolding try_flatten
  flatten g fuel p = elim (try_flatten g fuel p) [
    | none ↦ none
    | some (ok path) ↦ some (ok path)
    | some (err msg) ↦ some panic
    | some panic ↦ some panic
  ]
