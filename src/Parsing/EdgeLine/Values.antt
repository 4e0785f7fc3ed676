-- ===== src/Parsing/EdgeLine/Values.antt =====
-- The metrics of an edge by their ids, and what is left of shortcut-edges.
use osmgraphing.Prelude.{
  ℕ, suc, ◌≡◌, refl, ap, ◌∙◌, true, false, Bool, Option, none, some, List, [], ◌∷◌, map, arith,
  length, if◌then◌else◌, ◌&&◌, In, inl, inr, Bool-cases,
}
use osmgraphing.Rust.Outcome.{ok, expect, ◌>>=◌}
use osmgraphing.Rust.Vec.{index}
use osmgraphing.Rust.Float.{Float64}
use osmgraphing.Network.Graph.{EdgeIdx}
use osmgraphing.Network.Street.Text.{text_eq}
use osmgraphing.Configs.Metrics
use osmgraphing.Configs.Metrics.{SimpleId}
use osmgraphing.Configs.Edges
use osmgraphing.Configs.Edges.Ids.{AreDistinct}
use osmgraphing.Parsing.Config.{any, count_if}
use osmgraphing.Parsing.EdgeLine.{both}
use osmgraphing.Parsing.EdgeLine.Params.{half_or}
use osmgraphing.Parsing.EdgeLine.Columns.{metric_ids_of}
use osmgraphing.Writing.Row.Lookup.{ids_by, text_eq_self, text_eq_ne}
use osmgraphing.Writing.EdgeLine.Columns.{column_of}

index-behind :
    {A : Type 0} (o : Option ℕ) (v : A) (values : List A) (w : A)
    → (expect o >>= index values) ≡ ok w
    → (expect (elim o [ none ↦ none | some i ↦ some (suc i) ]) >>= index (v ∷ values)) ≡ ok w
index-behind none v values w h = cc
index-behind (some i) v values w h = h

map-same :
    {A B : Type 0} (g k : A → B) (xs : List A)
    → ((a : A) → In a xs → g a ≡ k a)
    → map g xs ≡ map k xs
map-same g k [] h = refl
map-same g k (x ∷ xs) h =
    let head = h x (inl refl) in let tail = map-same g k xs (λ a m. h a (inr m)) in cc

module _ {F : Type 0} ⦃f : Float64 F⦄ where
  -- The value that stands where the id stands.
  abbrev pub value_by : List SimpleId → List F → SimpleId → F
  value_by [] values id = f.zero
  value_by (x ∷ ids) [] id = f.zero
  value_by (x ∷ ids) (v ∷ values) id = if text_eq x id then v else value_by ids values id

  pub index-position :
      (ids : List SimpleId) (values : List F) (id : SimpleId)
      → In id ids
      → length values ≡ length ids
      → (expect (Metrics.position ids id) >>= index values) ≡ ok (value_by ids values id)
  unfolding Metrics.position
  index-position [] values id m h = absurd m
  index-position (x ∷ ids) [] id m h = absurd (omega arith)
  index-position (x ∷ ids) (v ∷ values) id m h = elim (Bool-cases (text_eq x id)) [
    | inl e ↦ rw e refl
    | inr e ↦ rw e (elim m [
      | inl q ↦
          absurd (let same : text_eq x x ≡ false = rw q at e in let other = text_eq_self x in cc)
      | inr later ↦
          index-behind (Metrics.position ids id) v values (value_by ids values id)
            (index-position ids values id later (omega arith))
    ])
  ]

  pub map-value_by :
      (ids : List SimpleId) (values : List F)
      → AreDistinct ids
      → length values ≡ length ids
      → map (value_by ids values) ids ≡ values
  map-value_by [] [] d h = refl
  map-value_by [] (v ∷ values) d h = absurd (omega arith)
  map-value_by (x ∷ ids) [] d h = absurd (omega arith)
  map-value_by (x ∷ ids) (v ∷ values) d h = rw (text_eq_self x) (
      ap (◌∷◌ v) (
        map-same (value_by (x ∷ ids) (v ∷ values)) (value_by ids values) ids
          (λ y m. rw (text_eq_ne x y (λ q. d.0 (rw q m))) refl)
        ∙ map-value_by ids values d.1 (omega arith)))

pub any_of_count :
    {A : Type 0} (test : A → Bool) (cs : List A) → count_if test cs ≡ 1 → any test cs ≡ true
any_of_count test [] h = absurd (omega arith)
any_of_count test (c ∷ cs) h = elim (Bool-cases (test c)) [
  | inl e ↦ rw e refl
  | inr e ↦ rw e (any_of_count test cs (let h' = rw e at h in omega arith))
]

pub half_or-both :
    (sc_edges : Option (EdgeIdx × EdgeIdx)) (a b : Bool)
    → both
        (if a then half_or (λ p. p.0) sc_edges none else none)
        (if b then half_or (λ p. p.1) sc_edges none else none)
      ≡ (if a && b then sc_edges else none)
unfolding both
half_or-both none true true = refl
half_or-both none true false = refl
half_or-both none false b = refl
half_or-both (some (x, y)) true true = refl
half_or-both (some (x, y)) true false = refl
half_or-both (some (x, y)) false b = refl

In-metric_ids_of :
    (cs : List Edges.Category) (id : SimpleId)
    → In id (metric_ids_of cs)
    → In id (ids_by column_of cs)
In-metric_ids_of [] id m = m
In-metric_ids_of (Edges.Category.meta info i ∷ cs) id m = inr (In-metric_ids_of cs id m)
In-metric_ids_of (Edges.Category.metric unit i ∷ cs) id (inl e) = inl e
In-metric_ids_of (Edges.Category.metric unit i ∷ cs) id (inr m) = inr (In-metric_ids_of cs id m)
In-metric_ids_of (Edges.Category.ignored ∷ cs) id m = In-metric_ids_of cs id m

pub In-head :
    (c : Edges.Category) (cs : List Edges.Category) (id : SimpleId)
    → In id (metric_ids_of (c ∷ []))
    → In id (metric_ids_of (c ∷ cs))
In-head (Edges.Category.meta info i) cs id m = absurd m
In-head (Edges.Category.metric unit i) cs id (inl e) = inl e
In-head (Edges.Category.metric unit i) cs id (inr m) = absurd m
In-head Edges.Category.ignored cs id m = absurd m

pub In-tail :
    (c : Edges.Category) (cs : List Edges.Category) (id : SimpleId)
    → In id (metric_ids_of cs)
    → In id (metric_ids_of (c ∷ cs))
In-tail (Edges.Category.meta info i) cs id m = m
In-tail (Edges.Category.metric unit i) cs id m = inr m
In-tail Edges.Category.ignored cs id m = m

pub metric_ids_of-AreDistinct :
    (cs : List Edges.Category) → AreDistinct (ids_by column_of cs) → AreDistinct (metric_ids_of cs)
metric_ids_of-AreDistinct [] d = tt
metric_ids_of-AreDistinct (Edges.Category.meta info i ∷ cs) d = metric_ids_of-AreDistinct cs d.1
metric_ids_of-AreDistinct (Edges.Category.metric unit i ∷ cs) d =
    (λ m. d.0 (In-metric_ids_of cs i m), metric_ids_of-AreDistinct cs d.1)
metric_ids_of-AreDistinct (Edges.Category.ignored ∷ cs) d = metric_ids_of-AreDistinct cs d
