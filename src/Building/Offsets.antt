-- ===== src/Building/Offsets.antt =====
-- network/graph/building.rs, `finalize`: the forward- and the backward-offset-array.
pub mod Tail
pub mod Loops
pub mod Leaving
pub mod Reading
use osmgraphing.Prelude.{
  ℕ, zero, suc, ◌+◌, ◌-◌, ◌<◌, ◌≤◌, ◌≡◌, refl, ap, sym, ◌∙◌, ◌↔◌, ◌⊎◌, inl, inr, Option, none, some,
  List, [], ◌∷◌, ◌++◌, map, length, get_elem?, replicate, arith, All, IsSorted, if◌then◌else◌, ◌==◌,
  ltb,
}
use osmgraphing.Network.Graph.{NodeIdx, EdgeIdx}
use osmgraphing.Building.Protos.{ProtoEdgeC}

-- `while src_idx != edge_src_idx { *src_idx += 1; offsets.push(offset); }`, on fuel
unfoldable pub advance : ℕ → NodeIdx → NodeIdx → ℕ → List ℕ → Option (NodeIdx × List ℕ)
advance zero src_idx edge_src offset offsets = none
advance (suc fuel) src_idx edge_src offset offsets =
    let rest = advance fuel (src_idx + 1) edge_src offset (offsets ++ offset ∷ []) in
    if src_idx == edge_src then some (src_idx, offsets) else rest

-- The variables of the loop over the forward-sorted proto-edges.
pub record Forward : Type 0 where
  pub src_idx : NodeIdx
  pub offset : ℕ
  pub edge_idx : EdgeIdx
  pub fwd_offsets : List ℕ
  pub bwd_dsts : List NodeIdx
  pub fwd_dsts : List NodeIdx
  pub fwd_to_fwd_map : List EdgeIdx
  pub edge_ids : List (Option ℕ)
  pub edge_ids_to_idx_map : List (ℕ × EdgeIdx)
  -- the proto-edges passed, with their `idx` set
  pub passed : List ProtoEdgeC

unfoldable pub forward_start : Forward
forward_start = record {
  src_idx = 0;
  offset = 0;
  edge_idx = 0;
  fwd_offsets = 0 ∷ [];
  bwd_dsts = [];
  fwd_dsts = [];
  fwd_to_fwd_map = [];
  edge_ids = [];
  edge_ids_to_idx_map = [];
  passed = [];
}

-- `if let Some(id) = proto_edge.id { map.push((id, EdgeIdx(edge_idx))); }`
abbrev pub push_id : Option ℕ → EdgeIdx → List (ℕ × EdgeIdx) → List (ℕ × EdgeIdx)
push_id none edge_idx entries = entries
push_id (some id) edge_idx entries = entries ++ (id, edge_idx) ∷ []

-- The rest of a round, after the inner loop.
abbrev pub forward_push : Forward → ProtoEdgeC → NodeIdx → List ℕ → Forward
forward_push s e src_idx offsets = record {
  src_idx = src_idx;
  offset = s.offset + 1;
  edge_idx = s.edge_idx + 1;
  fwd_offsets = offsets;
  bwd_dsts = s.bwd_dsts ++ e.src_idx ∷ [];
  fwd_dsts = s.fwd_dsts ++ e.dst_idx ∷ [];
  fwd_to_fwd_map = s.fwd_to_fwd_map ++ s.edge_idx ∷ [];
  edge_ids = s.edge_ids ++ e.id ∷ [];
  edge_ids_to_idx_map = push_id e.id s.edge_idx s.edge_ids_to_idx_map;
  passed = s.passed ++ (record e { idx = s.edge_idx }) ∷ [];
}

-- One round. Sorted edges need at most `src` rounds of the inner loop and its last test.
unfoldable pub forward_step : Forward → ProtoEdgeC → Option Forward
forward_step s e = elim (advance (suc e.src_idx) s.src_idx e.src_idx s.offset s.fwd_offsets) [
  | none ↦ none
  | some (src_idx, offsets) ↦ some (forward_push s e src_idx offsets)
]

unfoldable pub forward_loop : Forward → List ProtoEdgeC → Option Forward
forward_loop s [] = some s
forward_loop s (e ∷ es) = elim (forward_step s e) [ none ↦ none | some t ↦ forward_loop t es ]

-- The whole stage; the last push gives the last node its upper bound.
unfoldable pub build_forward : List ProtoEdgeC → Option Forward
unfolding forward_start
build_forward es = elim (forward_loop forward_start es) [
  | none ↦ none
  | some s ↦ some (record s { fwd_offsets = s.fwd_offsets ++ s.offset ∷ [] })
]

-- The variables of the loop over the backward-sorted proto-edges.
pub record Backward : Type 0 where
  pub src_idx : NodeIdx
  pub offset : ℕ
  pub bwd_offsets : List ℕ
  pub bwd_to_fwd_map : List EdgeIdx

unfoldable pub backward_start : Backward
backward_start = record { src_idx = 0; offset = 0; bwd_offsets = 0 ∷ []; bwd_to_fwd_map = [] }

abbrev pub backward_push : Backward → ProtoEdgeC → NodeIdx → List ℕ → Backward
backward_push s e src_idx offsets = record {
  src_idx = src_idx;
  offset = s.offset + 1;
  bwd_offsets = offsets;
  bwd_to_fwd_map = s.bwd_to_fwd_map ++ e.idx ∷ [];
}

unfoldable pub backward_step : Backward → ProtoEdgeC → Option Backward
backward_step s e = elim (advance (suc e.dst_idx) s.src_idx e.dst_idx s.offset s.bwd_offsets) [
  | none ↦ none
  | some (src_idx, offsets) ↦ some (backward_push s e src_idx offsets)
]

unfoldable pub backward_loop : Backward → List ProtoEdgeC → Option Backward
backward_loop s [] = some s
backward_loop s (e ∷ es) = elim (backward_step s e) [ none ↦ none | some t ↦ backward_loop t es ]

unfoldable pub build_backward : List ProtoEdgeC → Option Backward
unfolding backward_start
build_backward es = elim (backward_loop backward_start es) [
  | none ↦ none
  | some s ↦ some (record s { bwd_offsets = s.bwd_offsets ++ s.offset ∷ [] })
]
