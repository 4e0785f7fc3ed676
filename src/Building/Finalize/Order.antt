-- ===== src/Building/Finalize/Order.antt =====
-- Sorting by keys keeps the edges and orders them by the first entries of their keys; removing
-- duplicates keeps the order and the ends of the edges.
use osmgraphing.Prelude.{
  ℕ, ◌≤◌, ◌≡◌, refl, sym, ap, ◌∙◌, ◌↔◌, inl, inr, true, List, [], ◌∷◌, map, In, All, All_of_In,
  All-In, IsSorted, arith, Bool-cases, ==_iff, Ordering,
}
use osmgraphing.Rust.Outcome.{Outcome, ok, ok_inj, ◌>>=◌, returned, collect, collect-cons}
use osmgraphing.Rust.Sort.{sort_by, In-sort_by, SortedBy, sort_by-SortedBy, kept}
use osmgraphing.Building.Stages.{SortKey, compare_key, sort_by_key, sort_forward}
use osmgraphing.Rust.Float.{Float64}
use osmgraphing.Network.Graph.{NodeAccessor, node_level}
use osmgraphing.Building.Protos.{ProtoEdgeB}
use osmgraphing.Building.Dedup.{is_duplicate, remove_duplicates, dedup_loop}
use osmgraphing.Building.Dedup.Reference.{removed}
use osmgraphing.Building.Dedup.InPlace.{remove_duplicates_lem}
use osmgraphing.Building.Finalize.Ends.{In-map, Ends, ends}

-- The same elements have the same images.
pub same-map :
    {A B : Type 0} (f : A → B) (xs ys : List A)
    → ((x : A) → In x xs ↔ In x ys)
    → (y : B) → In y (map f xs) ↔ In y (map f ys)
same-map f xs ys h y =
    let left = In-map f xs y in
    let right = In-map f ys y in
    (
      λ m. let (x, q, e) = left.0 m in right.1 (x, (h x).0 q, e),
      λ m. let (x, q, e) = right.0 m in left.1 (x, (h x).1 q, e),
    )

by_key_sorted :
    {E : Type 0} (keyed : List (SortKey × E))
    → SortedBy
        (λ (p q : SortKey × E). p.0.first ≤ q.0.first)
        (sort_by (λ p q. compare_key p.0 q.0) keyed)
unfolding compare_key
by_key_sorted {E = E} keyed =
    sort_by-SortedBy (λ (p q : SortKey × E). compare_key p.0 q.0) (λ p q. p.0.first ≤ q.0.first)
      (λ p q n. ground arith) (λ p q n. ground arith) (λ p q r a b. omega (arith, a, b)) keyed

module _ {E : Type 0} (key : E → Outcome SortKey) where
  abbrev pub with_key : E → Outcome (SortKey × E)
  with_key e = key e >>= λ k. ok (k, e)

  -- The pairs of keys and elements.
  pub collect-with_key :
      (es : List E) (keyed : List (SortKey × E))
      → collect with_key es ≡ ok keyed
      → (map (λ (p : SortKey × E). p.1) keyed ≡ es)
        × All (λ (p : SortKey × E). key p.1 ≡ ok p.0) keyed
  collect-with_key [] keyed h = let e : [] ≡ keyed = cc in rw (← e) (refl, tt)
  collect-with_key (x ∷ es) keyed h =
      let (p, rest, e, e', shape) = collect-cons with_key x es keyed h in
      let (k, made, read) = returned p (key x) (λ k. ok (k, x)) e in
      let pair : (k, x) ≡ p = cc in
      let (same, keys) = collect-with_key es rest e' in
      rw (shape, ← pair) (ap (◌∷◌ x) same, (read, keys))

  module _ (g : E → ℕ) (first : (e : E) (k : SortKey) → key e ≡ ok k → k.first ≡ g e) where
    All-first :
        (b : SortKey × E) (ps : List (SortKey × E))
        → b.0.first ≡ g b.1
        → All (λ (p : SortKey × E). key p.1 ≡ ok p.0) ps
        → All (λ (p : SortKey × E). b.0.first ≤ p.0.first) ps
        → All (λ y. g b.1 ≤ y) (map g (map (λ (p : SortKey × E). p.1) ps))
    All-first b [] q keys h = tt
    All-first b (p ∷ ps) q keys h = (
      let r = first p.1 p.0 keys.0 in let s = h.0 in omega (arith, q, r, s),
      All-first b ps q keys.1 h.1,
    )

    IsSorted-first :
        (ps : List (SortKey × E))
        → All (λ (p : SortKey × E). key p.1 ≡ ok p.0) ps
        → SortedBy (λ (p q : SortKey × E). p.0.first ≤ q.0.first) ps
        → IsSorted (map g (map (λ (p : SortKey × E). p.1) ps))
    IsSorted-first [] keys h = tt
    IsSorted-first (p ∷ ps) keys h =
        (All-first p ps (first p.1 p.0 keys.0) keys.1 h.0, IsSorted-first ps keys.1 h.1)

    -- What the sorting gives.
    pub sort_by_key-IsSorted :
        (es s : List E)
        → sort_by_key compare_key key es ≡ ok s
        → IsSorted (map g s) × ((x : E) → In x s ↔ In x es)
    unfolding sort_by_key
    sort_by_key-IsSorted es s h =
        let cmp : SortKey × E → SortKey × E → Ordering = λ p q. compare_key p.0 q.0 in
        let (keyed, made, all) =
          returned s (collect with_key es)
            (λ keyed. ok (map (λ (p : SortKey × E). p.1) (sort_by cmp keyed))) h in
        let shape : map (λ (p : SortKey × E). p.1) (sort_by cmp keyed) ≡ s = cc in
        let (same, keys) = collect-with_key es keyed all in
        let keys' =
          All_of_In (sort_by cmp keyed)
            (λ p m. All-In _ keyed p keys ((In-sort_by cmp p keyed).0 m)) in
        rw (← shape) (
          IsSorted-first (sort_by cmp keyed) keys' (by_key_sorted keyed),
          λ x. rw (← same) (
              same-map (λ (p : SortKey × E). p.1) (sort_by cmp keyed) keyed
                (λ p. In-sort_by cmp p keyed) x),
        )

module _ {F C : Type 0} (nodes : NodeAccessor C) where
  -- The forward-edges are ordered by their sources.
  pub sort_forward-IsSorted :
      (es s : List (ProtoEdgeB F))
      → sort_forward nodes es ≡ ok s
      → IsSorted (map (λ e. e.src_idx) s) × ((x : ProtoEdgeB F) → In x s ↔ In x es)
  unfolding sort_forward
  sort_forward-IsSorted es s h =
      sort_by_key-IsSorted
        (λ e. node_level nodes e.dst_idx >>= λ level.
          ok (record { first = e.src_idx; level = level; second = e.dst_idx; id = e.id }))
        (λ e. e.src_idx)
        (λ e k q.
          let (level, made, read) = returned k (node_level nodes e.dst_idx) _ q in
          ap first_of (sym made))
        es s h
    where
      first_of : Outcome SortKey → ℕ
      first_of (ok k) = k.first
      first_of _ = 0

none_removed :
    {F : Type 0} ⦃f : Float64 F⦄ (unique : List (ProtoEdgeB F) × List ℕ)
    → remove_duplicates is_duplicate [] ≡ ok unique
    → ([], []) ≡ unique
unfolding remove_duplicates dedup_loop
none_removed unique h = ok_inj h

module _ {F : Type 0} ⦃f : Float64 F⦄ where
  -- Duplicates join the same nodes.
  is_duplicate-ends : (a b : ProtoEdgeB F) → is_duplicate a b ≡ true → ends a ≡ ends b
  unfolding is_duplicate
  is_duplicate-ends a b h =
      let src = (==_iff a.src_idx b.src_idx).0 in
      let dst = (==_iff a.dst_idx b.dst_idx).0 in
      let q : (a.src_idx ≡ b.src_idx) × (a.dst_idx ≡ b.dst_idx) = ground (arith, src, dst) in
      λ k. (q.0 k, q.1 k)

  kept-ends :
      (last : ProtoEdgeB F) (es : List (ProtoEdgeB F)) (p : Ends)
      → In p (map ends (last ∷ kept is_duplicate last es)) ↔ In p (map ends (last ∷ es))
  unfolding kept
  kept-ends last [] p = (λ m. m, λ m. m)
  kept-ends last (e ∷ es) p = elim (Bool-cases (is_duplicate last e)) [
    | inl d ↦
        let q = is_duplicate-ends last e d in
        let ih = kept-ends last es p in
        rw d (
          λ m. elim (ih.0 m) [ inl r ↦ inl r | inr r ↦ inr (inr r) ],
          λ m. elim m [
            | inl r ↦ ih.1 (inl r)
            | inr (inl r) ↦ ih.1 (inl (r ∙ sym q))
            | inr (inr r) ↦ ih.1 (inr r)
          ],
        )
    | inr n ↦
        let ih = kept-ends e es p in
        rw n (
          λ m. elim m [ inl r ↦ inl r | inr r ↦ inr (ih.0 r) ],
          λ m. elim m [ inl r ↦ inl r | inr r ↦ inr (ih.1 r) ],
        )
  ]

  All-kept_srcs :
      (b : ℕ) (last : ProtoEdgeB F) (es : List (ProtoEdgeB F))
      → All (λ y. b ≤ y) (map (λ e. e.src_idx) es)
      → All (λ y. b ≤ y) (map (λ e. e.src_idx) (kept is_duplicate last es))
  unfolding kept
  All-kept_srcs b last [] h = tt
  All-kept_srcs b last (e ∷ es) h = elim (Bool-cases (is_duplicate last e)) [
    | inl d ↦ rw d (All-kept_srcs b last es h.1)
    | inr n ↦ rw n (h.0, All-kept_srcs b e es h.1)
  ]

  kept-IsSorted :
      (last : ProtoEdgeB F) (es : List (ProtoEdgeB F))
      → IsSorted (map (λ e. e.src_idx) (last ∷ es))
      → IsSorted (map (λ e. e.src_idx) (last ∷ kept is_duplicate last es))
  unfolding kept
  kept-IsSorted last [] h = h
  kept-IsSorted last (e ∷ es) h = elim (Bool-cases (is_duplicate last e)) [
    | inl d ↦ rw d (kept-IsSorted last es (h.0.1, h.1.1))
    | inr n ↦ rw n ((h.0.0, All-kept_srcs last.src_idx e es h.0.1), kept-IsSorted e es h.1)
  ]

  -- The removal of duplicates keeps the order and the ends.
  pub remove_duplicates-IsSorted :
      (es : List (ProtoEdgeB F)) (unique : List (ProtoEdgeB F) × List ℕ)
      → remove_duplicates is_duplicate es ≡ ok unique
      → IsSorted (map (λ e. e.src_idx) es)
      → IsSorted (map (λ e. e.src_idx) unique.0)
        × ((p : Ends) → In p (map ends unique.0) ↔ In p (map ends es))
  remove_duplicates-IsSorted [] unique h sorted =
      let q : ([], []) ≡ unique = none_removed unique h in rw (← q) (tt, λ p. (λ m. m, λ m. m))
  remove_duplicates-IsSorted (e ∷ es) unique h sorted =
      let q : (e ∷ kept is_duplicate e es, removed is_duplicate e 1 es) ≡ unique =
        ok_inj (sym (remove_duplicates_lem is_duplicate e es) ∙ h) in
      rw (← q) (kept-IsSorted e es sorted, λ p. kept-ends e es p)
