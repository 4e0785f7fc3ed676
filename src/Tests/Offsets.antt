-- ===== src/Tests/Offsets.antt =====
-- Three edges, two from node 0 and one from node 2.
use osmgraphing.Prelude.{
  ℕ, ◌+◌, ◌≡◌, refl, ◌↔◌, none, some, List, [], ◌∷◌, arith, In, get_elem?, false, Bool, ◌==◌,
}
use osmgraphing.Rust.Outcome.{ok, panic}
use osmgraphing.Network.Graph.{EdgeAccessor, EdgeIdx, offset_indices}
use osmgraphing.Rust.Sort.{kept}
use osmgraphing.Building.Dedup.{remove_duplicates, correct_index}
use osmgraphing.Building.Dedup.Reference.{removed}
use osmgraphing.Building.Dedup.InPlace.{remove_duplicates_lem}
use osmgraphing.Building.Dedup.Correction.{Represents, correct_index-Represents}
use osmgraphing.Building.Protos.{ProtoEdgeC}
use osmgraphing.Building.Offsets.{Forward, Backward, build_forward, build_backward}
use osmgraphing.Building.Offsets.Loops.{
  IsForward, IsBackward, build_forward_total, build_backward_total,
}
use osmgraphing.Building.Offsets.Leaving.{
  IsIndexed, Leaves, offset_indices_leaving, offset_indices_beyond,
}

abbrev three : EdgeAccessor ℕ
three = record {
  edge_ids = none ∷ none ∷ none ∷ [];
  edge_ids_to_idx_map = [];
  edge_dsts = 1 ∷ 2 ∷ 1 ∷ [];
  offsets = 0 ∷ 2 ∷ 2 ∷ 3 ∷ [];
  xwd_to_fwd_map = 0 ∷ 1 ∷ 2 ∷ [];
  metrics = record {
    cfg = record { dim = 0; are_normalized = false };
    metrics = [] ∷ [] ∷ [] ∷ [];
    means = none;
  };
  sc_offsets = 0 ∷ 0 ∷ 0 ∷ 0 ∷ [];
  sc_edges = [];
}

abbrev three_srcs : List ℕ
three_srcs = 0 ∷ 0 ∷ 2 ∷ []

three-IsIndexed : IsIndexed three three_srcs
three-IsIndexed = record { sorted = ground arith; offsets = refl; mapped = refl }

offset_indices_leaving_example :
    (es : List EdgeIdx) × (offset_indices three 0 ≡ ok es)
    × ((e : EdgeIdx) → In e es ↔ Leaves three three_srcs 0 e)
offset_indices_leaving_example =
    offset_indices_leaving three three_srcs 0 three-IsIndexed (omega arith)

offset_indices_beyond_example : offset_indices three 3 ≡ panic
offset_indices_beyond_example =
    offset_indices_beyond three three_srcs 3 three-IsIndexed (omega arith)

abbrev same : ℕ → ℕ → Bool
same a b = a == b

remove_duplicates_example :
    remove_duplicates same (4 ∷ 4 ∷ 7 ∷ [])
    ≡ ok (4 ∷ kept same 4 (4 ∷ 7 ∷ []), removed same 4 1 (4 ∷ 7 ∷ []))
remove_duplicates_example = remove_duplicates_lem same 4 (4 ∷ 7 ∷ [])

correct_index_example :
    (q : ℕ) × (k : ℕ) × (correct_index (removed same 4 (0 + 1) (4 ∷ 7 ∷ [])) (0 + 1 + 1) ≡ 0 + q)
    × (get_elem? (4 ∷ kept same 4 (4 ∷ 7 ∷ [])) q ≡ some k)
    × Represents same k 7
correct_index_example = correct_index-Represents same 4 0 (4 ∷ 7 ∷ []) 1 7 refl

abbrev proto_edges : List ProtoEdgeC
proto_edges =
    record { src_idx = 0; dst_idx = 1; idx = 0; id = none }
    ∷ record { src_idx = 2; dst_idx = 1; idx = 1; id = some 5 }
    ∷ []

build_forward_example :
    (t : Forward) × (build_forward proto_edges ≡ some t) × IsForward proto_edges t
build_forward_example = build_forward_total proto_edges (ground arith)

build_backward_example :
    (t : Backward) × (build_backward proto_edges ≡ some t) × IsBackward proto_edges t
build_backward_example = build_backward_total proto_edges (ground arith)
