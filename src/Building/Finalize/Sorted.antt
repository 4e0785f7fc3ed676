-- ===== src/Building/Finalize/Sorted.antt =====
-- Sorting by keys that can be read does not panic, and keeps what is known of all edges.
use osmgraphing.Prelude.{
  ℕ, ◌≡◌, refl, sym, ap, ◌∙◌, inl, inr, List, [], ◌∷◌, map, In, All, length, length-map, Ordering,
  subst,
}
use osmgraphing.Rust.Outcome.{Outcome, ok, collect}
use osmgraphing.Rust.Sort.{
  sort_by, insert_by, In-sort_by, length-sort_by, insert_by_cases, In-insert_by,
}
use osmgraphing.Building.Remap.{IsUnique}
use osmgraphing.Building.Stages.{SortKey, sort_by_key}
use osmgraphing.Building.Finalize.Ends.{In-map}
use osmgraphing.Building.Finalize.Order.{with_key, collect-with_key}

module _ {E : Type 0} (h : E → ℕ) where
  abbrev second : SortKey × E → ℕ
  second p = h p.1

  module _ (cmp : SortKey × E → SortKey × E → Ordering) where
    IsUnique-insert_by :
        (p : SortKey × E) (ps : List (SortKey × E))
        → ¬ In (second p) (map second ps)
        → IsUnique (map second ps)
        → IsUnique (map second (insert_by cmp p ps))
    IsUnique-insert_by p [] new unique = unfold insert_by in (λ m. absurd m, tt)
    IsUnique-insert_by p (q ∷ ps) new unique = elim (insert_by_cases cmp p q ps) [
      | inl (far, e) ↦ rw e (
        λ m.
            let (r, there, same) = (In-map second (insert_by cmp p ps) (second q)).0 m in
            elim ((In-insert_by cmp r p ps).0 there) [
              | inl it ↦ new (inl (sym (same ∙ ap second it)))
              | inr old ↦ unique.0 ((In-map second ps (second q)).1 (r, old, same))
            ],
        IsUnique-insert_by p ps (λ m. new (inr m)) unique.1,
      )
      | inr (here, e) ↦ rw e (new, unique)
    ]

    IsUnique-sort_by :
        (ps : List (SortKey × E))
        → IsUnique (map second ps)
        → IsUnique (map second (sort_by cmp ps))
    unfolding sort_by
    IsUnique-sort_by [] unique = tt
    IsUnique-sort_by (p ∷ ps) unique =
        IsUnique-insert_by p (sort_by cmp ps)
          (λ m.
            let (r, there, same) = (In-map second (sort_by cmp ps) (second p)).0 m in
            unique.0 ((In-map second ps (second p)).1 (r, (In-sort_by cmp r ps).0 there, same)))
          (IsUnique-sort_by ps unique.1)

map-second :
    {E : Type 0} (h : E → ℕ) (ps : List (SortKey × E))
    → map (second h) ps ≡ map h (map (λ (p : SortKey × E). p.1) ps)
map-second h [] = refl
map-second h (p ∷ ps) = ap (◌∷◌ (h p.1)) (map-second h ps)

module _ {E : Type 0} (cmp : SortKey → SortKey → Ordering) (key : E → Outcome SortKey) where
  collect-with_key_total :
      (es : List E)
      → All (λ e. (k : SortKey) × (key e ≡ ok k)) es
      → (keyed : List (SortKey × E)) × (collect (with_key key) es ≡ ok keyed)
  collect-with_key_total [] readable = ([], refl)
  collect-with_key_total (e ∷ es) readable =
      let (k, read) = readable.0 in
      let (keyed, all) = collect-with_key_total es readable.1 in
      ((k, e) ∷ keyed, rw (read, all) refl)

  -- As many edges, and still no number twice.
  pub sort_by_key_total :
      (h : E → ℕ) (es : List E)
      → All (λ e. (k : SortKey) × (key e ≡ ok k)) es
      → (s : List E) × (sort_by_key cmp key es ≡ ok s)
        × (length s ≡ length es)
        × (IsUnique (map h es) → IsUnique (map h s))
  unfolding sort_by_key
  sort_by_key_total h es readable =
      let by : SortKey × E → SortKey × E → Ordering = λ p q. cmp p.0 q.0 in
      let (keyed, all) = collect-with_key_total es readable in
      let (same, _) = collect-with_key key es keyed all in
      (
        map (λ (p : SortKey × E). p.1) (sort_by by keyed),
        rw all refl,
        length-map (sort_by by keyed) (λ (p : SortKey × E). p.1)
            ∙ length-sort_by by keyed
            ∙ sym (length-map keyed (λ (p : SortKey × E). p.1))
            ∙ ap length same,
        λ unique. subst IsUnique (map-second h (sort_by by keyed)) (
            IsUnique-sort_by h by keyed
              (subst IsUnique (ap (map h) (sym same) ∙ sym (map-second h keyed)) unique)),
      )
