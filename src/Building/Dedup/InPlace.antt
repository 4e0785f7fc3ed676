-- ===== src/Building/Dedup/InPlace.antt =====
-- The in-place loop never panics and computes what the reference pass computes.
use native.Mathlib.Decide.{ℕ_discrete}
use osmgraphing.Prelude.{
  ℕ, zero, suc, ◌+◌, ◌-◌, ◌<◌, ◌≤◌, ◌≡◌, ◌≢◌, refl, ap, sym, ◌∙◌, some, Bool, true, false, inl, inr,
  List, [], ◌∷◌, ◌++◌, arith, length, get_elem?, set, take, Bool-cases, get_elem?-set_self,
  get_elem?-set_ne, length-set, length-append, get_elem?-append_left, get_elem?_total, subst,
}
use mathlib.Core.List.{append_assoc, append-nil}
use osmgraphing.Rust.Outcome.{ok, ◌>>=◌}
use osmgraphing.Building.Dedup.{DedupState, swap, dedup_step, dedup_loop, remove_duplicates}
use osmgraphing.Rust.Sort.{kept}
use osmgraphing.Building.Dedup.Reference.{removed}

module _ {E : Type 0} where
  take_of_prefix :
      (xs ks : List E)
      → ((j : ℕ) → j < length ks → get_elem? xs j ≡ get_elem? ks j)
      → take (length ks) xs ≡ ks
  take_of_prefix xs [] h = refl
  take_of_prefix [] (k ∷ ks) h = absurd (let e = h 0 (omega arith) in cc)
  take_of_prefix (x ∷ xs) (k ∷ ks) h =
      let e : x ≡ k = (let p = h 0 (omega arith) in cc) in
      let rest = take_of_prefix xs ks (λ j lt. h (suc j) (omega arith)) in cc

  -- Before the edge at `r`: the edges kept stand in front, the last of them at `w - 1`, and the
  -- edges to come stand where they were.
  record Compacted (pre : List E) (last : E) (r : ℕ) (rest : List E) (s : DedupState E)
      : Type 0 where
    front : s.w ≡ suc (length pre)
    behind : s.w ≤ r
    kept_front : (j : ℕ) → j < s.w → get_elem? s.proto_edges j ≡ get_elem? (pre ++ last ∷ []) j
    to_come : (j : ℕ) → get_elem? s.proto_edges (r + j) ≡ get_elem? rest j
    size : length s.proto_edges ≡ r + length rest
    dropped : s.w + length s.removed_indices ≡ r

  last_at : (pre : List E) (last : E) → get_elem? (pre ++ last ∷ []) (length pre) ≡ some last
  last_at [] last = refl
  last_at (p ∷ pre) last = last_at pre last

  swap_total :
      (xs : List E) (i j : ℕ) (a b : E)
      → get_elem? xs i ≡ some a
      → get_elem? xs j ≡ some b
      → swap xs i j ≡ ok (set (set xs i b) j a)
  unfolding swap
  swap_total xs i j a b h k = rw (h, k)

  -- After a swap the element of `j` stands at `i`, and only `i` and `j` changed.
  swap_reads :
      (xs : List E) (i j m : ℕ) (a b : E)
      → get_elem? xs i ≡ some a
      → get_elem? xs j ≡ some b
      → i ≤ j
      → j < length xs
      → (get_elem? (set (set xs i b) j a) i ≡ some b)
        × (m ≢ i → m ≢ j → get_elem? (set (set xs i b) j a) m ≡ get_elem? xs m)
  swap_reads xs i j m a b h k le lt = (
    elim (ℕ_discrete j i) [
      | yes e ↦
          let same : some a ≡ some b = sym h ∙ ap (get_elem? xs) (sym e) ∙ k in
          subst (λ n. get_elem? (set (set xs i b) j a) n ≡ some b) e
            (get_elem?-set_self (set xs i b) j a (omega (arith, length-set xs i b)) ∙ same)
      | no ne ↦ get_elem?-set_ne (set xs i b) a ne ∙ get_elem?-set_self xs i b (omega arith)
    ],
    λ n₁ n₂.
        get_elem?-set_ne (set xs i b) a (λ e. n₂ (sym e)) ∙ get_elem?-set_ne xs b (λ e. n₁ (sym e)),
  )

  module _ (pre : List E) (last : E) (r : ℕ) (e : E) (rest : List E) (s : DedupState E)
      (c : Compacted pre last r (e ∷ rest) s) where
    read_last : get_elem? s.proto_edges (s.w - 1) ≡ some last
    read_last =
        let q : s.w - 1 ≡ length pre = omega (arith, c.front) in
        rw q (c.kept_front (length pre) (omega (arith, c.front)) ∙ last_at pre last)

    read_next : get_elem? s.proto_edges r ≡ some e
    read_next = let q : r + 0 ≡ r = omega arith in rw q at (c.to_come 0)

    read_slot : (a : E) × (get_elem? s.proto_edges s.w ≡ some a)
    read_slot = get_elem?_total s.proto_edges s.w (omega (arith, c.behind, c.size))

    shifted : (j : ℕ) → get_elem? s.proto_edges (r + 1 + j) ≡ get_elem? rest j
    shifted j = let q : r + 1 + j ≡ r + suc j = omega arith in rw q (c.to_come (suc j))

    abbrev after_drop : DedupState E
    after_drop = record s { removed_indices = s.removed_indices ++ r ∷ [] }

    Compacted-drop : Compacted pre last (r + 1) rest after_drop
    Compacted-drop = record {
      front = c.front;
      behind = omega (arith, c.behind);
      kept_front = c.kept_front;
      to_come = shifted;
      size = omega (arith, c.size);
      dropped = omega (arith, c.dropped, length-append s.removed_indices (r ∷ []));
    }

    abbrev after_keep : DedupState E
    after_keep = record s { proto_edges = set (set s.proto_edges s.w e) r read_slot.0; w = s.w + 1 }

    untouched :
        (m : ℕ) → m ≢ s.w → m ≢ r → get_elem? after_keep.proto_edges m ≡ get_elem? s.proto_edges m
    untouched m =
        (swap_reads s.proto_edges s.w r m read_slot.0 e read_slot.1 read_next c.behind
          (omega (arith, c.size))).1

    keep_front :
        (j : ℕ)
        → j < s.w + 1
        → get_elem? after_keep.proto_edges j ≡ get_elem? ((pre ++ last ∷ []) ++ e ∷ []) j
    keep_front j lt =
        let size : length (pre ++ last ∷ []) ≡ s.w =
          omega (arith, length-append pre (last ∷ []), c.front) in
        elim (ℕ_discrete j s.w) [
          | yes q ↦ rw q (
              (swap_reads s.proto_edges s.w r 0 read_slot.0 e read_slot.1 read_next c.behind
                (omega (arith, c.size))).0
              ∙ sym (last_at (pre ++ last ∷ []) e)
              ∙ ap (get_elem? ((pre ++ last ∷ []) ++ e ∷ [])) size)
          | no ne ↦
              untouched j ne (omega (arith, c.behind))
              ∙ c.kept_front j (omega arith)
              ∙ sym (get_elem?-append_left (pre ++ last ∷ []) (e ∷ []) j (omega (arith, size)))
        ]

    Compacted-keep : Compacted (pre ++ last ∷ []) e (r + 1) rest after_keep
    Compacted-keep = record {
      front = omega (arith, c.front, length-append pre (last ∷ []));
      behind = omega (arith, c.behind);
      kept_front = keep_front;
      to_come = λ j. untouched (r + 1 + j) (omega (arith, c.behind)) (omega arith) ∙ shifted j;
      size = omega (
        arith,
        c.size,
        length-set (set s.proto_edges s.w e) r read_slot.0,
        length-set s.proto_edges s.w e,
      );
      dropped = omega (arith, c.dropped);
    }

module _ {E : Type 0} (dup : E → E → Bool) where
  -- The loop's outcome for the edges `rest` behind `pre` and `last`.
  record Done (pre : List E) (last : E) (r : ℕ) (rest : List E) (s t : DedupState E) : Type 0 where
    edges : take t.w t.proto_edges ≡ pre ++ last ∷ kept dup last rest
    indices : t.removed_indices ≡ s.removed_indices ++ removed dup last r rest
    sum : t.w + length t.removed_indices ≡ length t.proto_edges

  module _ (pre : List E) (last : E) (r : ℕ) (e : E) (rest : List E) (s : DedupState E)
      (c : Compacted pre last r (e ∷ rest) s) where
    dedup_step_drop : dup last e ≡ true → dedup_step dup r s ≡ ok (after_drop pre last r e rest s c)
    unfolding dedup_step
    dedup_step_drop d = rw (read_last pre last r e rest s c, read_next pre last r e rest s c, d)

    dedup_step_keep :
        dup last e ≡ false → dedup_step dup r s ≡ ok (after_keep pre last r e rest s c)
    unfolding dedup_step
    dedup_step_keep n =
        let (a, slot) = read_slot pre last r e rest s c in
        rw (
          read_last pre last r e rest s c,
          read_next pre last r e rest s c,
          n,
          swap_total s.proto_edges s.w r a e slot (read_next pre last r e rest s c),
        )

  Compacted-start :
      (e : E) (es : List E)
      → Compacted [] e 1 es (record { proto_edges = e ∷ es; w = 1; removed_indices = [] })
  Compacted-start e es = record {
    front = refl;
    behind = omega arith;
    kept_front = first;
    to_come = λ j. let q : 1 + j ≡ suc j = omega arith in rw q refl;
    size = omega arith;
    dropped = refl;
  }
    where
      first : (j : ℕ) → j < 1 → get_elem? (e ∷ es) j ≡ get_elem? (e ∷ []) j
      first zero lt = refl
      first (suc j) lt = absurd (omega arith)

  dedup_loop_total :
      (pre : List E) (last : E) (r : ℕ) (rest : List E) (s : DedupState E)
      → Compacted pre last r rest s
      → (t : DedupState E) × (dedup_loop dup (length rest) r s ≡ ok t) × Done pre last r rest s t
  unfolding dedup_loop kept removed
  dedup_loop_total pre last r [] s c = (
    s,
    refl,
    record {
      edges =
          let size : length (pre ++ last ∷ []) ≡ s.w =
            omega (arith, length-append pre (last ∷ []), c.front) in
          rw (← size) (
            take_of_prefix s.proto_edges (pre ++ last ∷ [])
              (λ j lt. c.kept_front j (omega (arith, size))));
      indices = sym (append-nil s.removed_indices);
      sum = omega (arith, c.dropped, c.size);
    },
  )
  dedup_loop_total pre last r (e ∷ rest) s c = elim (Bool-cases (dup last e)) [
    | inl d ↦
        let s' = after_drop pre last r e rest s c in
        let (t, ends, p) =
          dedup_loop_total pre last (r + 1) rest s' (Compacted-drop pre last r e rest s c) in
        (
          t,
          rw (dedup_step_drop pre last r e rest s c d, ◌>>=◌) ends,
          record {
            edges = rw d p.edges;
            indices = rw d (p.indices ∙ append_assoc s.removed_indices _ _);
            sum = p.sum;
          },
        )
    | inr n ↦
        let s' = after_keep pre last r e rest s c in
        let (t, ends, p) =
          dedup_loop_total (pre ++ last ∷ []) e (r + 1) rest s'
            (Compacted-keep pre last r e rest s c) in
        (
          t,
          rw (dedup_step_keep pre last r e rest s c n, ◌>>=◌) ends,
          record {
            edges = rw n (p.edges ∙ append_assoc pre _ _);
            indices = rw n p.indices;
            sum = p.sum;
          },
        )
  ]

  -- For any test of duplicates and any non-empty list of edges, the in-place loop with its swaps
  -- and its truncation does not panic, returns the edges that a pass comparing each edge with the
  -- last one kept keeps, and returns the positions that this pass drops.
  pub remove_duplicates_lem :
      (e : E) (es : List E)
      → remove_duplicates dup (e ∷ es) ≡ ok (e ∷ kept dup e es, removed dup e 1 es)
  unfolding remove_duplicates
  remove_duplicates_lem e es =
      let start : DedupState E = record { proto_edges = e ∷ es; w = 1; removed_indices = [] } in
      let (t, ends, p) = dedup_loop_total [] e 1 es start (Compacted-start e es) in
      let rounds : suc (length es) - 1 ≡ length es = omega arith in
      let left : length t.proto_edges - length t.removed_indices ≡ t.w = omega (arith, p.sum) in
      rw (rounds, ends, ◌>>=◌) (rw (left, p.edges, p.indices) refl)
