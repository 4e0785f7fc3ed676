-- ===== src/Building/Shortcuts/Loop.antt =====
-- The loop over the edges ends without a panic, and the offsets count the shortcuts before.
use native.Mathlib.Decide.{dec_lt, ℕ_discrete}
use osmgraphing.Prelude.{
  ℕ, zero, suc, ◌+◌, ◌<◌, ◌≤◌, ◌≡◌, ◌≢◌, refl, subst, ap, sym, ◌∙◌, inl, inr, some, List, [], ◌∷◌,
  ◌++◌, length, arith, All, get_elem?, get_elem?_total, set, Bool-cases, true, ltb, map, take,
  take-suc, take-length, length-map, length-set, get_elem?-map, get_elem?-set_self,
  get_elem?-set_ne, get_elem?-replicate, length-replicate, ◌==◌,
}
use osmgraphing.Rust.Outcome.{ok}
use osmgraphing.Network.Graph.{EdgeIdx}
use osmgraphing.Building.Offsets.Tail.{count_below, count_below-le-length, count_below-none}
use osmgraphing.Building.Shortcuts.{ScEdge, ScState, sc_step, sc_loop, build_shortcuts}
use osmgraphing.Building.Shortcuts.Counts.{
  IsStrict, count_below_hit, count_below_miss, count_below_full, count_below-length,
}

abbrev pub keys : List ScEdge → List EdgeIdx
keys = map (λ e. e.0)

abbrev pub replaced : List ScEdge → List (EdgeIdx × EdgeIdx)
replaced = map (λ e. e.1)

module _ (new : List ScEdge) (m : ℕ) where
  -- Before edge `i`: the offsets of the edges passed count, and the others are the total.
  pub record Counted (i : EdgeIdx) (s : ScState) : Type 0 where
    pub offset : s.sc_offset ≡ count_below i (keys new)
    pub size : length s.sc_offsets ≡ m + 1
    pub passed : (j : ℕ) → j < i → get_elem? s.sc_offsets j ≡ some (count_below j (keys new))
    pub ahead : (j : ℕ) → i ≤ j → j ≤ m → get_elem? s.sc_offsets j ≡ some (length new)
    pub edges : s.sc_edges ≡ take s.sc_offset (replaced new)

  -- What the loop ends in.
  pub record IsCounted (s : ScState) : Type 0 where
    pub offsets : (j : ℕ) → j ≤ m → get_elem? s.sc_offsets j ≡ some (count_below j (keys new))
    pub edges : s.sc_edges ≡ replaced new

  grown :
      (n : ℕ) (pair : EdgeIdx × EdgeIdx) (edges : List (EdgeIdx × EdgeIdx))
      → get_elem? (replaced new) n ≡ some pair
      → edges ≡ take n (replaced new)
      → edges ++ pair ∷ [] ≡ take (n + 1) (replaced new)
  grown n pair edges e h =
      let q : n + 1 ≡ suc n = omega arith in rw (q, h) (sym (take-suc (replaced new) n pair e))

  module _ (i : EdgeIdx) (s : ScState) (lt : i < m) (c : Counted i s) where
    -- The write at edge `i` extends the part that counts, and leaves the part ahead.
    written_passed :
        (j : ℕ)
        → j < i + 1
        → get_elem? (set s.sc_offsets i s.sc_offset) j ≡ some (count_below j (keys new))
    written_passed j h = elim (ℕ_discrete i j) [
      | yes e ↦
          rw (← e) (
            get_elem?-set_self s.sc_offsets i s.sc_offset (omega (arith, c.size))
            ∙ ap some c.offset)
      | no ne ↦ get_elem?-set_ne s.sc_offsets s.sc_offset ne ∙ c.passed j (omega arith)
    ]

    written_ahead :
        (j : ℕ)
        → i + 1 ≤ j
        → j ≤ m
        → get_elem? (set s.sc_offsets i s.sc_offset) j ≡ some (length new)
    written_ahead j h k =
        get_elem?-set_ne s.sc_offsets s.sc_offset (omega arith) ∙ c.ahead j (omega arith) k

    sc_step_total :
        IsStrict (keys new)
        → s.sc_offset ≢ length new
        → (t : ScState) × (sc_step new i s ≡ ok t) × Counted (i + 1) t
    unfolding sc_step
    sc_step_total strict more =
        let bound = count_below-le-length i (keys new) in
        let ((k, pair), at_entry) =
          get_elem?_total new s.sc_offset
            (omega (arith, bound, length-map new (λ e. e.0), c.offset)) in
        let key = get_elem?-map (λ (e : ScEdge). e.0) new s.sc_offset (k, pair) at_entry in
        let stored : ltb i (length s.sc_offsets) ≡ true = ground (arith, c.size) in
        let size = length-set s.sc_offsets i s.sc_offset ∙ c.size in
        elim (Bool-cases (i == k)) [
          | inl hit ↦
              let same : k ≡ i = ground arith in
              let next =
                count_below_hit (keys new) i strict
                  (subst (λ o. get_elem? (keys new) o ≡ some i) c.offset (key ∙ ap some same)) in
              (
                record {
                  sc_offset = s.sc_offset + 1;
                  sc_offsets = set s.sc_offsets i s.sc_offset;
                  sc_edges = s.sc_edges ++ pair ∷ [];
                },
                rw (at_entry, stored, hit),
                record {
                  offset = omega (arith, next, c.offset);
                  size = size;
                  passed = written_passed;
                  ahead = written_ahead;
                  edges =
                      grown s.sc_offset pair s.sc_edges
                        (get_elem?-map (λ (e : ScEdge). e.1) new s.sc_offset (k, pair) at_entry)
                        c.edges;
                },
              )
          | inr miss ↦
              let next =
                count_below_miss (keys new) i k strict
                  (subst (λ o. get_elem? (keys new) o ≡ some k) c.offset key) (ground arith) in
              (
                record s { sc_offsets = set s.sc_offsets i s.sc_offset },
                rw (at_entry, stored, miss),
                record {
                  offset = c.offset ∙ sym next;
                  size = size;
                  passed = written_passed;
                  ahead = written_ahead;
                  edges = c.edges;
                },
              )
        ]

  -- With all shortcuts counted the state is final.
  Counted-IsCounted :
      (i : EdgeIdx) (s : ScState) → Counted i s → s.sc_offset ≡ length new → IsCounted s
  Counted-IsCounted i s c full = record {
    offsets = λ j h. elim (dec_lt j i) [
      | yes before ↦ c.passed j before
      | no after ↦
          let size = length-map new (λ e. e.0) in
          c.ahead j (omega arith) h
          ∙ ap some (
              sym (
                count_below_full i j (keys new) (omega arith) (sym c.offset ∙ full ∙ sym size)
                ∙ size))
    ];
    edges =
        c.edges
        ∙ ap (λ n. take n (replaced new)) (full ∙ sym (length-map new (λ e. e.1)))
        ∙ take-length (replaced new);
  }

  pub sc_loop_total :
      (rounds i : ℕ) (s : ScState)
      → IsStrict (keys new)
      → All (λ x. x < m) (keys new)
      → rounds + i ≡ m
      → Counted i s
      → (t : ScState) × (sc_loop new rounds i s ≡ ok t) × IsCounted t
  unfolding sc_loop
  sc_loop_total zero i s strict below e c = (
    s,
    refl,
    Counted-IsCounted i s c (
        c.offset
        ∙ (let q : i ≡ m = omega arith in rw q (count_below-length m (keys new) below))
        ∙ length-map new (λ e. e.0)),
  )
  sc_loop_total (suc rounds) i s strict below e c = elim (Bool-cases (s.sc_offset == length new)) [
    | inl full ↦ (s, rw full, Counted-IsCounted i s c (ground arith))
    | inr more ↦
        let (next, steps, c') = sc_step_total i s (omega arith) c strict (ground arith) in
        let (t, ends, final) = sc_loop_total rounds (i + 1) next strict below (omega arith) c' in
        (t, rw (more, steps) ends, final)
  ]

-- For shortcut-edges listed in strictly ascending order and below `m`, the stage that builds the
-- shortcut-offsets does not panic, the offset of every edge up to `m` is the number of shortcut-
-- edges before it, and the stored shortcuts are those listed, in their order.
pub build_shortcuts_total :
    (new : List ScEdge) (m : ℕ)
    → IsStrict (keys new)
    → All (λ x. x < m) (keys new)
    → (t : ScState) × (build_shortcuts new m ≡ ok t) × IsCounted new m t
unfolding build_shortcuts
build_shortcuts_total new m strict below =
    sc_loop_total new m m 0 _ strict below (omega arith) (record {
      offset = sym (count_below-none (keys new));
      size = length-replicate (m + 1) (length new);
      passed = λ j h. absurd (omega arith);
      ahead = λ j h k. get_elem?-replicate (m + 1) (length new) j (omega arith);
      edges = refl;
    })
