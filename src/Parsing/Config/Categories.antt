-- ===== src/Parsing/Config/Categories.antt =====
-- What the check of a configuration looks for among the categories, said without its tests.
use osmgraphing.Prelude.{
  ℕ, suc, ◌+◌, ◌≡◌, refl, sym, ap, ◌∙◌, ◌↔◌, ◌⊎◌, inl, inr, Bool, true, Option, none, some, List,
  [], ◌∷◌, In, arith, Bool-cases,
}
use osmgraphing.Network.Street.Text.{Text}
use osmgraphing.Configs.Nodes
use osmgraphing.Configs.Edges
use osmgraphing.Configs.GeneratedEdges
use osmgraphing.Configs.Generating
use osmgraphing.Parsing.Config.{
  any, count_if, is_node_id, is_latitude, is_longitude, is_shortcut_info, is_shortcut_idx,
  generated_dim, sum_dims, generated_dims,
}

-- `n` elements of the list fulfil `P`.
abbrev pub Counts : {A : Type 0} → (A → Type 0) → List A → ℕ → Type 0
Counts P [] n = n ≡ 0
Counts P (x ∷ xs) n = (P x × (m : ℕ) × (n ≡ suc m) × Counts P xs m) ⊎ ((¬ P x) × Counts P xs n)

pub Counts-unique :
    {A : Type 0} (P : A → Type 0) (xs : List A) (n m : ℕ) → Counts P xs n → Counts P xs m → n ≡ m
Counts-unique P [] n m h k = h ∙ sym k
Counts-unique P (x ∷ xs) n m (inl (p, n', e, h)) (inl (q, m', e', k)) =
    e ∙ ap suc (Counts-unique P xs n' m' h k) ∙ sym e'
Counts-unique P (x ∷ xs) n m (inl h) (inr k) = absurd (k.0 h.0)
Counts-unique P (x ∷ xs) n m (inr h) (inl k) = absurd (h.0 k.0)
Counts-unique P (x ∷ xs) n m (inr h) (inr k) = Counts-unique P xs n m h.1 k.1

-- The category is that of a shortcut-index.
abbrev pub IsShortcutIdx : Edges.Category → Type 0
IsShortcutIdx c =
    ((id : Text) × (c ≡ Edges.Category.meta Edges.MetaInfo.shortcut_idx_0 id))
    ⊎ ((id : Text) × (c ≡ Edges.Category.meta Edges.MetaInfo.shortcut_idx_1 id))

is_shortcut_idx_iff : (c : Edges.Category) → (is_shortcut_idx c ≡ true) ↔ IsShortcutIdx c
unfolding is_shortcut_idx is_shortcut_info
is_shortcut_idx_iff (Edges.Category.meta Edges.MetaInfo.shortcut_idx_0 id) =
    (λ h. inl (id, refl), λ h. refl)
is_shortcut_idx_iff (Edges.Category.meta Edges.MetaInfo.shortcut_idx_1 id) =
    (λ h. inr (id, refl), λ h. refl)
is_shortcut_idx_iff c =
    (λ h. cc, λ m. elim m [ inl m ↦ let e = m.1 in cc | inr m ↦ let e = m.1 in cc ])

pub any_iff :
    {A : Type 0} (test : A → Bool) (make : Text → A)
    → ((a : A) → (test a ≡ true) ↔ ((id : Text) × (a ≡ make id)))
    → (xs : List A) → (any test xs ≡ true) ↔ ((id : Text) × In (make id) xs)
any_iff test make h [] = (λ e. cc, λ m. absurd m.1)
any_iff test make h (x ∷ xs) = (
  λ e. elim (Bool-cases (test x)) [
    | inl here ↦ let (id, same) = (h x).0 here in (id, inl (sym same))
    | inr other ↦
        let (id, m) =
          (any_iff test make h xs).0 (let e' : any test xs ≡ true = rw other at e in e') in
        (id, inr m)
  ],
  λ m. elim m.1 [
    | inl same ↦ let here = (h x).1 (m.0, sym same) in rw here refl
    | inr later ↦ let there = (any_iff test make h xs).1 (m.0, later) in ground (arith, there)
  ],
)

pub is_node_id_iff :
    (c : Nodes.Category)
    → (is_node_id c ≡ true) ↔ ((id : Text) × (c ≡ Nodes.Category.meta Nodes.MetaInfo.node_id id))
unfolding is_node_id
is_node_id_iff (Nodes.Category.meta Nodes.MetaInfo.node_id id) = (λ h. (id, refl), λ m. refl)
is_node_id_iff c = (λ h. cc, λ m. let e = m.1 in cc)

pub is_latitude_iff :
    (c : Nodes.Category)
    → (is_latitude c ≡ true)
      ↔ ((id : Text) × (c ≡ Nodes.Category.metric Nodes.UnitInfo.latitude id))
unfolding is_latitude
is_latitude_iff (Nodes.Category.metric Nodes.UnitInfo.latitude id) = (λ h. (id, refl), λ m. refl)
is_latitude_iff c = (λ h. cc, λ m. let e = m.1 in cc)

pub is_longitude_iff :
    (c : Nodes.Category)
    → (is_longitude c ≡ true)
      ↔ ((id : Text) × (c ≡ Nodes.Category.metric Nodes.UnitInfo.longitude id))
unfolding is_longitude
is_longitude_iff (Nodes.Category.metric Nodes.UnitInfo.longitude id) = (λ h. (id, refl), λ m. refl)
is_longitude_iff c = (λ h. cc, λ m. let e = m.1 in cc)

pub count_if-Counts :
    (cs : List Edges.Category) → Counts IsShortcutIdx cs (count_if is_shortcut_idx cs)
count_if-Counts [] = refl
count_if-Counts (c ∷ cs) = elim (Bool-cases (is_shortcut_idx c)) [
  | inl yes_c ↦ inl (
    (is_shortcut_idx_iff c).0 yes_c,
    count_if is_shortcut_idx cs,
    rw yes_c (omega arith),
    count_if-Counts cs,
  )
  | inr no_c ↦
      let zero-add : 0 + count_if is_shortcut_idx cs ≡ count_if is_shortcut_idx cs = omega arith in
      inr
        (λ m. (let e = (is_shortcut_idx_iff c).1 m in cc), rw (no_c, zero-add) (count_if-Counts cs))
]

module _ {F : Type 0} where
  -- The category adds a metric to every edge.
  abbrev pub AddsMetric : GeneratedEdges.Category F → Type 0
  AddsMetric c =
      ((unit : Generating.UnitInfo) × (id : Text) × (default : F) × (c
          ≡ GeneratedEdges.Category.custom unit id default))
      ⊎ ((unit : Generating.UnitInfo) × (id : Text) × (c
            ≡ GeneratedEdges.Category.haversine unit id))
      ⊎ ((from to : GeneratedEdges.MetricCategory) × (c ≡ GeneratedEdges.Category.copy from to))
      ⊎ ((result a b : GeneratedEdges.MetricCategory) × (c
            ≡ GeneratedEdges.Category.calc result a b))

  generated_dim_cases :
      (c : GeneratedEdges.Category F)
      → ((generated_dim c ≡ 1) × AddsMetric c) ⊎ ((generated_dim c ≡ 0) × (¬ AddsMetric c))
  unfolding generated_dim
  generated_dim_cases (GeneratedEdges.Category.custom unit id default) =
      inl (refl, inl (unit, id, default, refl))
  generated_dim_cases (GeneratedEdges.Category.haversine unit id) =
      inl (refl, inr (inl (unit, id, refl)))
  generated_dim_cases (GeneratedEdges.Category.copy from to) =
      inl (refl, inr (inr (inl (from, to, refl))))
  generated_dim_cases (GeneratedEdges.Category.calc result a b) =
      inl (refl, inr (inr (inr (result, a, b, refl))))
  generated_dim_cases c = inr (
    refl,
    λ m. elim m [
      | inl m ↦ let e = m.3 in cc
      | inr (inl m) ↦ let e = m.2 in cc
      | inr (inr (inl m)) ↦ let e = m.2 in cc
      | inr (inr (inr m)) ↦ let e = m.3 in cc
    ],
  )

  sum_dims-Counts : (cs : List (GeneratedEdges.Category F)) → Counts AddsMetric cs (sum_dims cs)
  unfolding sum_dims
  sum_dims-Counts [] = refl
  sum_dims-Counts (c ∷ cs) = elim (generated_dim_cases c) [
    | inl (one, adds) ↦ inl (adds, sum_dims cs, rw one (omega arith), sum_dims-Counts cs)
    | inr (zero_c, other) ↦
        let zero-add : 0 + sum_dims cs ≡ sum_dims cs = omega arith in
        inr (other, rw (zero_c, zero-add) (sum_dims-Counts cs))
  ]

  -- `n` metrics are generated, none without a configuration for it.
  abbrev pub Generates : Option (List (GeneratedEdges.Category F)) → ℕ → Type 0
  Generates none n = n ≡ 0
  Generates (some cs) n = Counts AddsMetric cs n

  pub generated_dims-Generates :
      (generating : Option (List (GeneratedEdges.Category F)))
      → Generates generating (generated_dims generating)
  unfolding generated_dims
  generated_dims-Generates none = refl
  generated_dims-Generates (some cs) = sum_dims-Counts cs

  pub Generates-unique :
      (generating : Option (List (GeneratedEdges.Category F))) (n m : ℕ)
      → Generates generating n
      → Generates generating m
      → n ≡ m
  Generates-unique none n m h k = h ∙ sym k
  Generates-unique (some cs) n m h k = Counts-unique AddsMetric cs n m h k
