-- ===== src/Building/Offsets/Reading.antt =====
-- What the accessor of the leaving edges reads from the arrays of the forward stage.
use osmgraphing.Prelude.{
  ℕ, zero, suc, ◌+◌, ◌<◌, ◌≤◌, ◌≡◌, sym, ap, ◌∙◌, ◌↔◌, some, List, length, arith, IsSorted, In,
  get_elem?, lt-length_of_get_elem?, length-map, subst,
}
use osmgraphing.Rust.Outcome.{ok}
use osmgraphing.Rust.Vec.{count_from, length-count_from, some_inj}
use osmgraphing.Network.Graph.{NodeIdx, EdgeIdx, EdgeAccessor, offset_indices}
use osmgraphing.Building.Protos.{ProtoEdgeC}
use osmgraphing.Building.Offsets.{Forward, build_forward}
use osmgraphing.Building.Offsets.Tail.{last_or}
use osmgraphing.Building.Offsets.Loops.{srcs, build_forward_total}
use osmgraphing.Building.Offsets.Leaving.{IsIndexed, Leaves, offset_indices_leaving}

get_elem?-count_from : (lo n p : ℕ) → p < n → get_elem? (count_from lo n) p ≡ some (lo + p)
get_elem?-count_from lo zero p h = absurd (omega arith)
get_elem?-count_from lo (suc n) zero h = ap some (omega arith)
get_elem?-count_from lo (suc n) (suc p) h =
    get_elem?-count_from (lo + 1) n p (omega arith) ∙ ap some (omega arith)

module _ {F : Type 0} (a : EdgeAccessor F) (es : List ProtoEdgeC) where
  -- With the identity as the mapping an edge leaves a node if its own position has this source.
  Leaves-of_identity :
      (i : NodeIdx) (e : EdgeIdx)
      → a.xwd_to_fwd_map ≡ count_from 0 (length es)
      → Leaves a (srcs es) i e ↔ (get_elem? (srcs es) e ≡ some i)
  Leaves-of_identity i e identity =
      let size = length-map es (λ x. x.src_idx) in
      let read : (p : ℕ) → get_elem? (srcs es) p ≡ some i → get_elem? a.xwd_to_fwd_map p ≡ some p =
        λ p q.
          ap (λ l. get_elem? l p) identity
          ∙ get_elem?-count_from 0 (length es) p
              (omega (arith, lt-length_of_get_elem? (srcs es) p i q, size))
          ∙ ap some (omega arith) in
      (
        λ m.
            let same : m.0 ≡ e = some_inj (sym (read m.0 m.1) ∙ m.2) in
            subst (λ p. get_elem? (srcs es) p ≡ some i) same m.1,
        λ q. (e, q, read e q),
      )

  -- If the forward stage ends in `t` on edges sorted by their source and an accessor holds the
  -- offset-array and the mapping of `t`, then for every node up to the last source
  -- `offset_indices` returns normally, and an edge-index is in the result exactly if the edge at
  -- this position has the node as its source.
  pub build_forward_leaving :
      (t : Forward) (i : NodeIdx)
      → IsSorted (srcs es)
      → build_forward es ≡ some t
      → a.offsets ≡ t.fwd_offsets
      → a.xwd_to_fwd_map ≡ t.fwd_to_fwd_map
      → i ≤ last_or 0 (srcs es)
      → (edges : List EdgeIdx) × (offset_indices a i ≡ ok edges)
        × ((e : EdgeIdx) → In e edges ↔ (get_elem? (srcs es) e ≡ some i))
  build_forward_leaving t i sorted built offsets mapping low =
      let (t', built', p) = build_forward_total es sorted in
      let same : t ≡ t' = some_inj (sym built ∙ built') in
      let identity = mapping ∙ ap (λ (s : Forward). s.fwd_to_fwd_map) same ∙ p.positions in
      let indexed : IsIndexed a (srcs es) = record {
        sorted = sorted;
        offsets = offsets ∙ ap (λ (s : Forward). s.fwd_offsets) same ∙ p.offsets;
        mapped =
            ap length identity
            ∙ length-count_from 0 (length es)
            ∙ sym (length-map es (λ x. x.src_idx));
      } in
      let (edges, reads, exactly) = offset_indices_leaving a (srcs es) i indexed low in
      (
        edges,
        reads,
        λ e.
            let there = exactly e in
            let identical = Leaves-of_identity i e identity in
            (λ m. identical.0 (there.0 m), λ q. there.1 (identical.1 q)),
      )
