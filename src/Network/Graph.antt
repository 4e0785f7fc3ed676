-- ===== src/Network/Graph.antt =====
-- network/graph/mod.rs and network/graph/indexing.rs: the offset-graph and its shallow accessors.
-- Coordinates belong to the crate `kissunits` and are the parameter `C`; `f64` is the parameter
-- `F`. An index out of bounds is a panic. Of `parsing::Config` the record `Config` keeps what the
-- graph's own code reads: the number of metrics and whether they are normalised.
use osmgraphing.Prelude.{
  ℕ, ◌+◌, ◌-◌, Option, none, some, Bool, not, List, length, if◌then◌else◌, ◌==◌, ltb, [], ◌∷◌,
}
use osmgraphing.Prelude.Int.{ℤ, compare_ℤ}
use osmgraphing.Rust.Outcome.{Outcome, ok, err, panic, expect, collect, ◌>>=◌, unknown_edge_id}
use osmgraphing.Rust.Vec.{index, range}
use osmgraphing.Rust.Search.{binary_search, Found, at, missing, binary_search_by_key}

-- `NodeIdx(pub usize)`
abbrev pub NodeIdx : Type 0
NodeIdx = ℕ

-- `EdgeIdx(pub usize)`
abbrev pub EdgeIdx : Type 0
EdgeIdx = ℕ

-- `MetricIdx(pub usize)`
abbrev pub MetricIdx : Type 0
MetricIdx = ℕ

pub record Config : Type 0 where
  pub dim : ℕ
  pub are_normalized : Bool

pub record Graph (F C : Type 0) : Type 0 where
  pub cfg : Config
  pub node_ids : List ℤ
  pub node_coords : List C
  pub node_ch_levels : List ℕ
  pub fwd_dsts : List NodeIdx
  pub fwd_offsets : List ℕ
  pub fwd_to_fwd_map : List EdgeIdx
  pub bwd_dsts : List NodeIdx
  pub bwd_offsets : List ℕ
  pub bwd_to_fwd_map : List EdgeIdx
  pub metrics : List (List F)
  pub means : Option (List F)
  pub edge_ids : List (Option ℕ)
  pub edge_ids_to_idx_map : List (ℕ × EdgeIdx)
  pub sc_offsets : List ℕ
  pub sc_edges : List (EdgeIdx × EdgeIdx)

pub record Node (C : Type 0) : Type 0 where
  pub idx : NodeIdx
  pub id : ℤ
  pub coord : C
  pub level : ℕ

pub record NodeAccessor (C : Type 0) : Type 0 where
  pub node_ids : List ℤ
  pub node_coords : List C
  pub node_ch_levels : List ℕ

pub record MetricAccessor (F : Type 0) : Type 0 where
  pub cfg : Config
  pub metrics : List (List F)
  pub means : Option (List F)

pub record EdgeAccessor (F : Type 0) : Type 0 where
  pub edge_ids : List (Option ℕ)
  pub edge_ids_to_idx_map : List (ℕ × EdgeIdx)
  pub edge_dsts : List NodeIdx
  pub offsets : List ℕ
  pub xwd_to_fwd_map : List EdgeIdx
  pub metrics : MetricAccessor F
  pub sc_offsets : List ℕ
  pub sc_edges : List (EdgeIdx × EdgeIdx)

pub record HalfEdge (F : Type 0) : Type 0 where
  pub idx : EdgeIdx
  pub edge_accessor : EdgeAccessor F

module _ {F C : Type 0} where
  unfoldable pub nodes : Graph F C → NodeAccessor C
  nodes g = record {
    node_ids = g.node_ids;
    node_coords = g.node_coords;
    node_ch_levels = g.node_ch_levels;
  }

  unfoldable pub metrics_of : Graph F C → MetricAccessor F
  metrics_of g = record { cfg = g.cfg; metrics = g.metrics; means = g.means }

  unfoldable pub fwd_edges : Graph F C → EdgeAccessor F
  unfolding metrics_of
  fwd_edges g = record {
    edge_ids = g.edge_ids;
    edge_ids_to_idx_map = g.edge_ids_to_idx_map;
    edge_dsts = g.fwd_dsts;
    offsets = g.fwd_offsets;
    xwd_to_fwd_map = g.fwd_to_fwd_map;
    metrics = metrics_of g;
    sc_offsets = g.sc_offsets;
    sc_edges = g.sc_edges;
  }

  unfoldable pub bwd_edges : Graph F C → EdgeAccessor F
  unfolding metrics_of
  bwd_edges g = record {
    edge_ids = g.edge_ids;
    edge_ids_to_idx_map = g.edge_ids_to_idx_map;
    edge_dsts = g.bwd_dsts;
    offsets = g.bwd_offsets;
    xwd_to_fwd_map = g.bwd_to_fwd_map;
    metrics = metrics_of g;
    sc_offsets = g.sc_offsets;
    sc_edges = g.sc_edges;
  }

module _ {C : Type 0} where
  unfoldable pub node_count : NodeAccessor C → ℕ
  node_count a = length a.node_ids

  unfoldable pub node_id : NodeAccessor C → NodeIdx → Outcome ℤ
  node_id a idx = index a.node_ids idx

  unfoldable pub node_coord : NodeAccessor C → NodeIdx → Outcome C
  node_coord a idx = index a.node_coords idx

  unfoldable pub node_level : NodeAccessor C → NodeIdx → Outcome ℕ
  node_level a idx = index a.node_ch_levels idx

  unfoldable pub node_idx_from : NodeAccessor C → ℤ → Found
  node_idx_from a id = binary_search compare_ℤ a.node_ids id

  unfoldable pub create : NodeAccessor C → NodeIdx → Outcome (Node C)
  unfolding node_id node_coord node_level
  create a idx = node_id a idx >>= λ id. node_coord a idx >>= λ coord.
      node_level a idx >>= λ level. ok (record { idx = idx; id = id; coord = coord; level = level })

  unfoldable pub create_from : NodeAccessor C → ℤ → Outcome (Option (Node C))
  unfolding node_idx_from create
  create_from a id = elim (node_idx_from a id) [
    | at idx ↦ create a idx >>= λ n. ok (some n)
    | missing _ ↦ ok none
  ]

module _ {F : Type 0} where
  unfoldable pub edge_count : EdgeAccessor F → ℕ
  edge_count a = length a.edge_dsts

  unfoldable pub half_edge : EdgeAccessor F → EdgeIdx → HalfEdge F
  half_edge a idx = record { idx = idx; edge_accessor = a }

  unfoldable pub try_id : EdgeAccessor F → EdgeIdx → Outcome (Option ℕ)
  try_id a idx = index a.edge_ids idx

  -- `EdgeAccessor::id`
  unfoldable pub edge_id : EdgeAccessor F → EdgeIdx → Outcome ℕ
  unfolding try_id
  edge_id a idx = try_id a idx >>= expect

  unfoldable pub dst_idx : EdgeAccessor F → EdgeIdx → Outcome NodeIdx
  dst_idx a idx = index a.edge_dsts idx

  -- Indexing a `MetricAccessor` by an `EdgeIdx`.
  unfoldable pub metrics_at : MetricAccessor F → EdgeIdx → Outcome (List F)
  metrics_at m idx = index m.metrics idx

  -- The `usize` difference panics where it would be negative.
  unfoldable pub is_shortcut : EdgeAccessor F → EdgeIdx → Outcome Bool
  is_shortcut a idx = index a.sc_offsets (idx + 1) >>= λ hi.
      index a.sc_offsets idx >>= λ lo. if ltb hi lo then panic else ok (not ((hi - lo) == 0))

  unfoldable pub sc_edges_at : EdgeAccessor F → EdgeIdx → Outcome (Option (EdgeIdx × EdgeIdx))
  unfolding is_shortcut
  sc_edges_at a idx = is_shortcut a idx >>= λ shortcut.
      if shortcut
      then (index a.sc_offsets idx >>= λ k. index a.sc_edges k >>= λ e. ok (some e))
      else ok none

  unfoldable pub offset_indices : EdgeAccessor F → NodeIdx → Outcome (List EdgeIdx)
  offset_indices a idx = index a.offsets idx >>= λ lo.
      index a.offsets (idx + 1) >>= λ hi. collect (index a.xwd_to_fwd_map) (range lo hi)

  unfoldable pub starting_from : EdgeAccessor F → NodeIdx → Outcome (List (HalfEdge F))
  unfolding offset_indices half_edge
  starting_from a idx =
      offset_indices a idx >>= λ edges. collect (λ edge_idx. ok (half_edge a edge_idx)) edges

  -- the loop of `between`
  unfoldable pub between_in :
      EdgeAccessor F → NodeIdx → List EdgeIdx → Outcome (Option (HalfEdge F))
  unfolding dst_idx half_edge
  between_in a dst [] = ok none
  between_in a dst (edge_idx ∷ rest) =
      let further = between_in a dst rest in
      dst_idx a edge_idx >>= λ d. if d == dst then ok (some (half_edge a edge_idx)) else further

  unfoldable pub between : EdgeAccessor F → NodeIdx → NodeIdx → Outcome (Option (HalfEdge F))
  unfolding between_in offset_indices
  between a src dst = offset_indices a src >>= between_in a dst

  unfoldable pub try_idx_from : EdgeAccessor F → ℕ → Outcome EdgeIdx
  try_idx_from a id = elim (binary_search_by_key a.edge_ids_to_idx_map id) [
    | at idx ↦ index a.edge_ids_to_idx_map idx >>= λ entry. ok entry.1
    | missing _ ↦ err (unknown_edge_id id)
  ]

  -- `EdgeAccessor::idx_from`
  unfoldable pub edge_idx_from : EdgeAccessor F → ℕ → Outcome EdgeIdx
  unfolding try_idx_from
  edge_idx_from a id = elim (try_idx_from a id) [
    | ok idx ↦ ok idx
    | err msg ↦ panic
    | panic ↦ panic
  ]

  unfoldable pub mean : MetricAccessor F → MetricIdx → Outcome (Option F)
  mean m idx = elim m.means [ none ↦ ok none | some ms ↦ index ms idx >>= λ x. ok (some x) ]
