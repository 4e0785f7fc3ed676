-- ===== src/Building/Offsets/Leaving.antt =====
-- What `offset_indices` reads from an offset-array that the loops have built: the edges that
-- leave a node, and a panic behind the last node that has one.
use osmgraphing.Prelude.{
  ℕ, zero, suc, ◌+◌, ◌<◌, ◌≤◌, ◌≡◌, ap, sym, ◌∙◌, ◌↔◌, none, some, List, ◌∷◌, length, arith,
  IsSorted, All_of, In, get_elem?, get_elem?_beyond, get_elem?_total, All_of_In,
}
use osmgraphing.Rust.Outcome.{ok, panic, collect}
use osmgraphing.Rust.Vec.{index, range, In-range, In-collect-index, collect-index_total}
use osmgraphing.Network.Graph.{NodeIdx, EdgeIdx, EdgeAccessor, offset_indices}
use osmgraphing.Building.Offsets.Tail.{
  tail, last_or, count_below, length-tail, get_elem?-tail, lt-count_below, count_below_mono,
  count_below-le-length, count_below-none,
}

-- The offset-array of the sorted `keys`.
abbrev pub offsets_of : List NodeIdx → List ℕ
offsets_of keys = 0 ∷ tail 0 0 keys

from_zero : (keys : List NodeIdx) → IsSorted keys → IsSorted (0 ∷ keys)
from_zero keys h = (All_of (λ y. omega arith) keys, h)

length-offsets_of :
    (keys : List NodeIdx) → IsSorted keys → length (offsets_of keys) ≡ last_or 0 keys + 2
length-offsets_of keys h = omega (arith, length-tail 0 0 keys (from_zero keys h))

get_elem?-offsets_of :
    (keys : List NodeIdx) (i : ℕ)
    → IsSorted keys
    → i ≤ last_or 0 keys + 1
    → get_elem? (offsets_of keys) i ≡ some (count_below i keys)
get_elem?-offsets_of keys zero h k = ap some (sym (count_below-none keys))
get_elem?-offsets_of keys (suc j) h k =
    get_elem?-tail 0 0 keys j (from_zero keys h)
      (omega (arith, length-tail 0 0 keys (from_zero keys h)))
    ∙ ap some (let e : 0 + 1 + j ≡ suc j = omega arith in rw e (omega arith))

-- The positions between two neighbouring offsets are those of the key.
In-positions :
    (keys : List NodeIdx) (i p : ℕ)
    → IsSorted keys
    → In p (range (count_below i keys) (count_below (i + 1) keys)) ↔ (get_elem? keys p ≡ some i)
In-positions keys i p s =
    let between =
      In-range (count_below i keys) (count_below (i + 1) keys) p (count_below_mono i keys) in
    (
      λ m.
          let q = between.0 m in
          let (v, e) =
            get_elem?_total keys p (omega (arith, q.1, count_below-le-length (i + 1) keys)) in
          let low = lt-count_below i keys p v s e in
          let high = lt-count_below (i + 1) keys p v s e in
          let above : ¬ (v < i) = λ lt. omega (arith, low.1 lt, q.0) in
          e ∙ ap some (omega (arith, above, high.0 q.1)),
      λ e.
          let low = lt-count_below i keys p i s e in
          let high = lt-count_below (i + 1) keys p i s e in
          let above : ¬ (p < count_below i keys) = λ lt. omega (arith, low.0 lt) in
          between.1 (omega (arith, above), high.1 (omega arith)),
    )

module _ {F : Type 0} (a : EdgeAccessor F) (keys : List NodeIdx) where
  -- The accessor's arrays belong to edges sorted by `keys`.
  pub record IsIndexed : Type 0 where
    pub sorted : IsSorted keys
    pub offsets : a.offsets ≡ offsets_of keys
    pub mapped : length a.xwd_to_fwd_map ≡ length keys

  -- The edge `e` is the entry of some position whose key is `i`.
  abbrev pub Leaves : NodeIdx → EdgeIdx → Type 0
  Leaves i e = (p : ℕ) × (get_elem? keys p ≡ some i) × (get_elem? a.xwd_to_fwd_map p ≡ some e)

  pub offset_indices-eq_range :
      (i : NodeIdx)
      → IsIndexed
      → i ≤ last_or 0 keys
      → offset_indices a i
        ≡ collect (index a.xwd_to_fwd_map) (range (count_below i keys) (count_below (i + 1) keys))
  unfolding offset_indices
  offset_indices-eq_range i h k = rw (
    h.offsets,
    get_elem?-offsets_of keys i h.sorted (omega arith),
    get_elem?-offsets_of keys (i + 1) h.sorted (omega arith),
  )

  -- If an accessor's offset-array is that of the sorted list `keys` and its mapping is as long as
  -- `keys`, then for every node up to the last key `offset_indices` returns normally, and an edge
  -- is in the result exactly if it is the mapping's entry at some position whose key is this node.
  pub offset_indices_leaving :
      (i : NodeIdx)
      → IsIndexed
      → i ≤ last_or 0 keys
      → (es : List EdgeIdx) × (offset_indices a i ≡ ok es) × ((e : EdgeIdx) → In e es ↔ Leaves i e)
  offset_indices_leaving i h k =
      let lo = count_below i keys in
      let hi = count_below (i + 1) keys in
      let up = count_below_mono i keys in
      let in_bounds = All_of_In (range lo hi) (λ p m.
        let q = (In-range lo hi p up).0 m in
        omega (arith, q.1, count_below-le-length (i + 1) keys, h.mapped)) in
      let (es, reads) = collect-index_total a.xwd_to_fwd_map (range lo hi) in_bounds in
      (
        es,
        offset_indices-eq_range i h k ∙ reads,
        λ e.
            let read = In-collect-index a.xwd_to_fwd_map (range lo hi) es e reads in
            (
              λ m. let (p, at_p, e') = read.0 m in (p, (In-positions keys i p h.sorted).0 at_p, e'),
              λ m. read.1 (m.0, (In-positions keys i m.0 h.sorted).1 m.1, m.2),
            ),
      )

  -- If an accessor's offset-array is that of the sorted list `keys` and its mapping is as long as
  -- `keys`, then `offset_indices` panics for every node behind the last key.
  pub offset_indices_beyond :
      (i : NodeIdx) → IsIndexed → last_or 0 keys < i → offset_indices a i ≡ panic
  unfolding offset_indices
  offset_indices_beyond i h k =
      let missing : get_elem? a.offsets (i + 1) ≡ none = rw h.offsets (
        get_elem?_beyond (offsets_of keys) (i + 1)
          (omega (arith, length-offsets_of keys h.sorted))) in
      ground (arith, missing)
