-- ===== src/Configs/GeneratedEdges/Check.antt =====
-- The check of generated ids compares each with the existing ones, and not with one another.
use osmgraphing.Prelude.{
  ◌≡◌, refl, ap, ◌∙◌, ◌++◌, subst, ◌↔◌, ◌⊎◌, inl, inr, some, true, List, [], ◌∷◌, In, All, arith,
  Bool-cases, Option-cases,
}
use osmgraphing.Rust.Outcome.{Outcome, ok, err, generated_id_exists}
use osmgraphing.Configs.Metrics.{SimpleId}
use osmgraphing.Configs.Edges
use osmgraphing.Configs.Generating
use osmgraphing.Configs.Edges.Ids.{text_eq_iff}
use osmgraphing.Configs.GeneratedEdges.{
  Category, MetaInfo, MetricCategory, new_id, exists_id, check_generated,
}

abbrev pub existing_ids : List Edges.Category → List SimpleId
existing_ids [] = []
existing_ids (Edges.Category.meta info id ∷ categories) = id ∷ existing_ids categories
existing_ids (Edges.Category.metric unit id ∷ categories) = id ∷ existing_ids categories
existing_ids (Edges.Category.ignored ∷ categories) = existing_ids categories

exists_id_iff :
    (id : SimpleId) (categories : List Edges.Category)
    → (exists_id id categories ≡ true) ↔ In id (existing_ids categories)
unfolding exists_id
exists_id_iff id [] = (λ h. cc, λ m. absurd m)
exists_id_iff id (Edges.Category.meta info id' ∷ categories) =
    ground (arith, exists_id_iff id categories, text_eq_iff id id')
exists_id_iff id (Edges.Category.metric unit id' ∷ categories) =
    ground (arith, exists_id_iff id categories, text_eq_iff id id')
exists_id_iff id (Edges.Category.ignored ∷ categories) = exists_id_iff id categories

module _ {F : Type 0} where
  -- Generating the category creates one with this id. Merging and converting are in-place.
  abbrev pub Creates : Category F → SimpleId → Type 0
  Creates c id =
      ((info : MetaInfo) × (c ≡ Category.meta info id))
      ⊎ ((unit : Generating.UnitInfo) × (default : F) × (c ≡ Category.custom unit id default))
      ⊎ ((unit : Generating.UnitInfo) × (c ≡ Category.haversine unit id))
      ⊎ ((from to : MetricCategory) × (c ≡ Category.copy from to) × (to.id ≡ id))
      ⊎ ((result a b : MetricCategory) × (c ≡ Category.calc result a b) × (result.id ≡ id))

  new_id-Creates : (c : Category F) (id : SimpleId) → new_id c ≡ some id → Creates c id
  new_id-Creates (Category.meta info id') id h = inl (info, cc)
  new_id-Creates (Category.custom unit id' default) id h = inr (inl (unit, default, cc))
  new_id-Creates (Category.haversine unit id') id h = inr (inr (inl (unit, cc)))
  new_id-Creates (Category.copy from to) id h = inr (inr (inr (inl (from, to, refl, cc))))
  new_id-Creates (Category.calc result a b) id h = inr (inr (inr (inr (result, a, b, refl, cc))))
  new_id-Creates c id h = cc

  Creates-new_id : (c : Category F) (id : SimpleId) → Creates c id → new_id c ≡ some id
  Creates-new_id c id (inl (info, e)) = rw e refl
  Creates-new_id c id (inr (inl (unit, default, e))) = rw e refl
  Creates-new_id c id (inr (inr (inl (unit, e)))) = rw e refl
  Creates-new_id c id (inr (inr (inr (inl (from, to, e, same))))) = rw e (ap some same)
  Creates-new_id c id (inr (inr (inr (inr (result, a, b, e, same))))) = rw e (ap some same)

  -- The category would be created with an id that is there already.
  abbrev pub Clashes : List Edges.Category → Category F → Type 0
  Clashes existing c = (id : SimpleId) × Creates c id × In id (existing_ids existing)

  -- The first clash among the categories.
  pub record FirstClash (existing : List Edges.Category) (categories : List (Category F))
      (id : SimpleId) : Type 0 where
    pub before : List (Category F)
    pub clashing : Category F
    pub behind : List (Category F)
    pub splits : categories ≡ before ++ clashing ∷ behind
    pub clear : All (λ c. ¬ Clashes existing c) before
    pub creates : Creates clashing id
    pub exists : In id (existing_ids existing)

  FirstClash-later :
      (existing : List Edges.Category) (c : Category F) (categories : List (Category F))
      (id : SimpleId)
      → ¬ Clashes existing c
      → FirstClash existing categories id
      → FirstClash existing (c ∷ categories) id
  FirstClash-later existing c categories id fresh first = record {
    before = c ∷ first.before;
    clashing = first.clashing;
    behind = first.behind;
    splits = ap (◌∷◌ c) first.splits;
    clear = (fresh, first.clear);
    creates = first.creates;
    exists = first.exists;
  }

  -- What the check does at one category: it goes on where nothing clashes.
  check_generated_first :
      (existing : List Edges.Category) (c : Category F) (categories : List (Category F))
      → ((¬ Clashes existing c)
          × (check_generated existing (c ∷ categories) ≡ check_generated existing categories))
        ⊎ ((id : SimpleId) × Creates c id
            × In id (existing_ids existing)
            × (check_generated existing (c ∷ categories) ≡ err (generated_id_exists id)))
  unfolding check_generated
  check_generated_first existing c categories = elim (Option-cases (new_id c)) [
    | inl unchecked ↦ inl (
      λ (id, creates, there). let e = Creates-new_id c id creates in cc,
      rw (check_generated, unchecked) refl,
    )
    | inr (id, checked) ↦ elim (Bool-cases (exists_id id existing)) [
      | inl there ↦ inr (
        id,
        new_id-Creates c id checked,
        (exists_id_iff id existing).0 there,
        rw (check_generated, checked, there) refl,
      )
      | inr absent ↦ inl (
        λ (id', creates, there).
            let e = Creates-new_id c id' creates in
            let same : id' ≡ id = cc in
            let found =
              (exists_id_iff id existing).1
                (subst (λ i. In i (existing_ids existing)) same there) in
            cc,
        rw (check_generated, checked, absent) refl,
      )
    ]
  ]

  -- The check of the generated categories either succeeds, and none of them creates an id that an
  -- existing category has, or it ends in the error for the id that the first such category
  -- creates: metadata, custom, haversine, copied and calculated categories create the id of their
  -- result, merged and converted ones create none.
  pub check_generated_cases :
      (existing : List Edges.Category) (categories : List (Category F))
      → (All (λ c. ¬ Clashes existing c) categories × (check_generated existing categories ≡ ok tt))
        ⊎ ((id : SimpleId) × FirstClash existing categories id
            × (check_generated existing categories ≡ err (generated_id_exists id)))
  unfolding check_generated
  check_generated_cases existing [] = inl (tt, refl)
  check_generated_cases existing (c ∷ categories) =
      elim (check_generated_first existing c categories) [
        | inr (id, creates, there, e) ↦ inr (
          id,
          record {
            before = [];
            clashing = c;
            behind = categories;
            splits = refl;
            clear = tt;
            creates = creates;
            exists = there;
          },
          e,
        )
        | inl (fresh, e) ↦ elim (check_generated_cases existing categories) [
          | inl (all, passes) ↦ inl ((fresh, all), e ∙ passes)
          | inr (id, first, fails) ↦
              inr (id, FirstClash-later existing c categories id fresh first, e ∙ fails)
        ]
      ]
