-- ===== src/Tests/Leaving.antt =====
-- The forward stage on two edges, from node 0 and from node 2.
use osmgraphing.Prelude.{ℕ, ◌≡◌, ◌↔◌, refl, none, some, List, [], ◌∷◌, In, get_elem?, arith, false}
use osmgraphing.Rust.Outcome.{ok}
use osmgraphing.Network.Graph.{EdgeAccessor, EdgeIdx, offset_indices}
use osmgraphing.Building.Protos.{ProtoEdgeC}
use osmgraphing.Building.Offsets.{
  Forward, build_forward, forward_loop, forward_step, forward_start, advance,
}
use osmgraphing.Building.Offsets.Loops.{srcs}
use osmgraphing.Building.Offsets.Reading.{build_forward_leaving}

abbrev two_edges : List ProtoEdgeC
two_edges =
    record { src_idx = 0; dst_idx = 1; idx = 0; id = none }
    ∷ record { src_idx = 2; dst_idx = 1; idx = 1; id = some 5 }
    ∷ []

abbrev two_built : Forward
two_built = record {
  src_idx = 2;
  offset = 2;
  edge_idx = 2;
  fwd_offsets = 0 ∷ 1 ∷ 1 ∷ 2 ∷ [];
  bwd_dsts = 0 ∷ 2 ∷ [];
  fwd_dsts = 1 ∷ 1 ∷ [];
  fwd_to_fwd_map = 0 ∷ 1 ∷ [];
  edge_ids = none ∷ some 5 ∷ [];
  edge_ids_to_idx_map = (5, 1) ∷ [];
  passed = two_edges;
}

abbrev two_accessor : EdgeAccessor ℕ
two_accessor = record {
  edge_ids = none ∷ some 5 ∷ [];
  edge_ids_to_idx_map = (5, 1) ∷ [];
  edge_dsts = 1 ∷ 1 ∷ [];
  offsets = 0 ∷ 1 ∷ 1 ∷ 2 ∷ [];
  xwd_to_fwd_map = 0 ∷ 1 ∷ [];
  metrics = record {
    cfg = record { dim = 0; are_normalized = false };
    metrics = [] ∷ [] ∷ [];
    means = none;
  };
  sc_offsets = 0 ∷ 0 ∷ 0 ∷ [];
  sc_edges = [];
}

build_forward_leaving_example :
    (edges : List EdgeIdx) × (offset_indices two_accessor 2 ≡ ok edges)
    × ((e : EdgeIdx) → In e edges ↔ (get_elem? (srcs two_edges) e ≡ some 2))
build_forward_leaving_example =
    build_forward_leaving two_accessor two_edges two_built 2 (ground arith)
      (unfold build_forward forward_loop forward_step forward_start advance in refl) refl refl
      (omega arith)
