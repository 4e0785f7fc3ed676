-- ===== src/Building/Offsets/Loops.antt =====
-- The forward and the backward loop end on sorted edges, and what they have built then.
use mathlib.Core.List.{append-nil, append_assoc}
use osmgraphing.Prelude.{
  ℕ, suc, ◌+◌, ◌-◌, ◌≤◌, ◌≡◌, refl, sym, ◌∙◌, some, List, [], ◌∷◌, ◌++◌, map, length, arith,
  IsSorted, All_of, replicate,
}
use osmgraphing.Rust.Vec.{count_from}
use osmgraphing.Network.Graph.{NodeIdx}
use osmgraphing.Building.Protos.{ProtoEdgeC}
use osmgraphing.Building.Offsets.{
  Forward, forward_start, forward_push, forward_step, forward_loop, build_forward, Backward,
  backward_start, backward_push, backward_step, backward_loop, build_backward,
}
use osmgraphing.Building.Offsets.Tail.{advance_total, tail}

abbrev pub srcs : List ProtoEdgeC → List NodeIdx
srcs = map (λ e. e.src_idx)

abbrev pub dsts : List ProtoEdgeC → List NodeIdx
dsts = map (λ e. e.dst_idx)

-- The edges with their `idx` set to their positions from `n` on.
abbrev pub numbered : ℕ → List ProtoEdgeC → List ProtoEdgeC
numbered n [] = []
numbered n (e ∷ es) = record e { idx = n } ∷ numbered (n + 1) es

-- What the forward loop has done to `s` when it has passed `es`.
pub record Passed (s : Forward) (es : List ProtoEdgeC) (t : Forward) : Type 0 where
  pub offsets : t.fwd_offsets ++ t.offset ∷ [] ≡ s.fwd_offsets ++ tail s.src_idx s.offset (srcs es)
  pub to_bwd : t.bwd_dsts ≡ s.bwd_dsts ++ srcs es
  pub to_fwd : t.fwd_dsts ≡ s.fwd_dsts ++ dsts es
  pub positions : t.fwd_to_fwd_map ≡ s.fwd_to_fwd_map ++ count_from s.edge_idx (length es)
  pub ids : t.edge_ids ≡ s.edge_ids ++ map (λ e. e.id) es
  pub edges : t.passed ≡ s.passed ++ numbered s.edge_idx es

Passed-nil : (s : Forward) → Passed s [] s
Passed-nil s = record {
  offsets = refl;
  to_bwd = sym (append-nil s.bwd_dsts);
  to_fwd = sym (append-nil s.fwd_dsts);
  positions = sym (append-nil s.fwd_to_fwd_map);
  ids = sym (append-nil s.edge_ids);
  edges = sym (append-nil s.passed);
}

abbrev after_forward : Forward → ProtoEdgeC → Forward
after_forward s e =
    forward_push s e e.src_idx (s.fwd_offsets ++ replicate (e.src_idx - s.src_idx) s.offset)

forward_step_total :
    (s : Forward) (e : ProtoEdgeC)
    → s.src_idx ≤ e.src_idx
    → forward_step s e ≡ some (after_forward s e)
unfolding forward_step
forward_step_total s e h = rw (
  advance_total (suc e.src_idx) s.src_idx e.src_idx s.offset s.fwd_offsets h (omega arith),
  forward_step,
)

Passed-cons :
    (s : Forward) (e : ProtoEdgeC) (es : List ProtoEdgeC) (t : Forward)
    → Passed (after_forward s e) es t
    → Passed s (e ∷ es) t
Passed-cons s e es t p = record {
  offsets = p.offsets ∙ append_assoc s.fwd_offsets _ _;
  to_bwd = p.to_bwd ∙ append_assoc s.bwd_dsts _ _;
  to_fwd = p.to_fwd ∙ append_assoc s.fwd_dsts _ _;
  positions = p.positions ∙ append_assoc s.fwd_to_fwd_map _ _;
  ids = p.ids ∙ append_assoc s.edge_ids _ _;
  edges = p.edges ∙ append_assoc s.passed _ _;
}

pub forward_loop_total :
    (s : Forward) (es : List ProtoEdgeC)
    → IsSorted (s.src_idx ∷ srcs es)
    → (t : Forward) × (forward_loop s es ≡ some t) × Passed s es t
unfolding forward_loop
forward_loop_total s [] h = (s, refl, Passed-nil s)
forward_loop_total s (e ∷ es) h =
    let (t, ends, p) = forward_loop_total (after_forward s e) es h.1 in
    (t, rw (forward_step_total s e h.0.0, forward_loop) ends, Passed-cons s e es t p)

-- The backward loop, likewise: offsets by destination, and the `idx` of each edge.
pub record PassedBackward (s : Backward) (es : List ProtoEdgeC) (t : Backward) : Type 0 where
  pub offsets : t.bwd_offsets ++ t.offset ∷ [] ≡ s.bwd_offsets ++ tail s.src_idx s.offset (dsts es)
  pub to_fwd : t.bwd_to_fwd_map ≡ s.bwd_to_fwd_map ++ map (λ e. e.idx) es

abbrev after_backward : Backward → ProtoEdgeC → Backward
after_backward s e =
    backward_push s e e.dst_idx (s.bwd_offsets ++ replicate (e.dst_idx - s.src_idx) s.offset)

backward_step_total :
    (s : Backward) (e : ProtoEdgeC)
    → s.src_idx ≤ e.dst_idx
    → backward_step s e ≡ some (after_backward s e)
unfolding backward_step
backward_step_total s e h = rw (
  advance_total (suc e.dst_idx) s.src_idx e.dst_idx s.offset s.bwd_offsets h (omega arith),
  backward_step,
)

pub backward_loop_total :
    (s : Backward) (es : List ProtoEdgeC)
    → IsSorted (s.src_idx ∷ dsts es)
    → (t : Backward) × (backward_loop s es ≡ some t) × PassedBackward s es t
unfolding backward_loop
backward_loop_total s [] h =
    (s, refl, record { offsets = refl; to_fwd = sym (append-nil s.bwd_to_fwd_map) })
backward_loop_total s (e ∷ es) h =
    let (t, ends, p) = backward_loop_total (after_backward s e) es h.1 in
    (
      t,
      rw (backward_step_total s e h.0.0, backward_loop) ends,
      record {
        offsets = p.offsets ∙ append_assoc s.bwd_offsets _ _;
        to_fwd = p.to_fwd ∙ append_assoc s.bwd_to_fwd_map _ _;
      },
    )

IsSorted-zero : (xs : List ℕ) → IsSorted xs → IsSorted (0 ∷ xs)
IsSorted-zero xs h = (All_of (λ y. omega arith) xs, h)

-- What a finished forward stage holds.
pub record IsForward (es : List ProtoEdgeC) (t : Forward) : Type 0 where
  pub offsets : t.fwd_offsets ≡ 0 ∷ tail 0 0 (srcs es)
  pub to_bwd : t.bwd_dsts ≡ srcs es
  pub to_fwd : t.fwd_dsts ≡ dsts es
  pub positions : t.fwd_to_fwd_map ≡ count_from 0 (length es)
  pub ids : t.edge_ids ≡ map (λ e. e.id) es
  pub edges : t.passed ≡ numbered 0 es

-- On edges sorted by their source the forward stage ends, with the offset-array of the sources,
-- the sources and the destinations in the order of the edges, the identity as its mapping, the
-- edges' ids, and every edge numbered by its position.
pub build_forward_total :
    (es : List ProtoEdgeC)
    → IsSorted (srcs es)
    → (t : Forward) × (build_forward es ≡ some t) × IsForward es t
unfolding build_forward
build_forward_total es h =
    let (t, ends, p) = forward_loop_total forward_start es (IsSorted-zero (srcs es) h) in
    (
      record t { fwd_offsets = t.fwd_offsets ++ t.offset ∷ [] },
      rw (ends, build_forward),
      record {
        offsets = p.offsets;
        to_bwd = p.to_bwd;
        to_fwd = p.to_fwd;
        positions = p.positions;
        ids = p.ids;
        edges = p.edges;
      },
    )

pub record IsBackward (es : List ProtoEdgeC) (t : Backward) : Type 0 where
  pub offsets : t.bwd_offsets ≡ 0 ∷ tail 0 0 (dsts es)
  pub to_fwd : t.bwd_to_fwd_map ≡ map (λ e. e.idx) es

-- On edges sorted by their destination the backward stage ends, with the offset-array of the
-- destinations, and with a mapping to the positions that the edges carry.
pub build_backward_total :
    (es : List ProtoEdgeC)
    → IsSorted (dsts es)
    → (t : Backward) × (build_backward es ≡ some t) × IsBackward es t
unfolding build_backward
build_backward_total es h =
    let (t, ends, p) = backward_loop_total backward_start es (IsSorted-zero (dsts es) h) in
    (
      record t { bwd_offsets = t.bwd_offsets ++ t.offset ∷ [] },
      rw (ends, build_backward),
      record { offsets = p.offsets; to_fwd = p.to_fwd },
    )
