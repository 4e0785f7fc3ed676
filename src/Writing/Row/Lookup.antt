-- ===== src/Writing/Row/Lookup.antt =====
-- Rows whose columns are looked up by their ids: the first category with an id is written.
use osmgraphing.Prelude.{
  ◌≡◌, ◌≢◌, refl, ap, ◌∙◌, ◌⊎◌, inl, inr, true, false, Option, none, some, List, [], ◌∷◌, map, All,
  All-In, All_of_In, In, Bool-cases,
}
use osmgraphing.Rust.Outcome.{Outcome, ok}
use osmgraphing.Rust.Words.{join}
use osmgraphing.Network.Street.Text.{Text, text_eq}
use osmgraphing.Configs.Metrics.{SimpleId}
use osmgraphing.Configs.Edges.Ids.{text_eq_iff, AreDistinct}
use osmgraphing.Writing.Row.{write_column, write_row}
use osmgraphing.Writing.Row.Columns.{write_row-join}

pub text_eq_self : (s : Text) → text_eq s s ≡ true
text_eq_self s = (text_eq_iff s s).1 refl

pub text_eq_ne : (s t : Text) → s ≢ t → text_eq s t ≡ false
text_eq_ne s t h = elim (Bool-cases (text_eq s t)) [
  | inl e ↦ absurd (h ((text_eq_iff s t).0 e))
  | inr e ↦ e
]

abbrev pub cons_some : Option SimpleId → List SimpleId → List SimpleId
cons_some none ids = ids
cons_some (some id) ids = id ∷ ids

-- The ids of the categories that have one.
abbrev pub ids_by : {A : Type 0} → (A → Option SimpleId) → List A → List SimpleId
ids_by column [] = []
ids_by column (c ∷ cs) = cons_some (column c) (ids_by column cs)

In-cons_some :
    (o : Option SimpleId) (id : SimpleId) (ids : List SimpleId)
    → (o ≡ some id) ⊎ In id ids
    → In id (cons_some o ids)
In-cons_some none id ids (inl e) = absurd (cc)
In-cons_some none id ids (inr m) = m
In-cons_some (some x) id ids (inl e) = inl (cc)
In-cons_some (some x) id ids (inr m) = inr m

head_ne :
    (o : Option SimpleId) (id : SimpleId) (ids : List SimpleId)
    → AreDistinct (cons_some o ids)
    → In id ids
    → o ≢ some id
head_ne none id ids d m h = cc
head_ne (some x) id ids d m h = let same : x ≡ id = cc in d.0 (rw same m)

tail-AreDistinct :
    (o : Option SimpleId) (ids : List SimpleId) → AreDistinct (cons_some o ids) → AreDistinct ids
tail-AreDistinct none ids d = d
tail-AreDistinct (some x) ids d = d.1

In-ids_by :
    {A : Type 0} (column : A → Option SimpleId) (cs : List A) (c : A) (id : SimpleId)
    → In c cs
    → column c ≡ some id
    → In id (ids_by column cs)
In-ids_by column [] c id m e = absurd m
In-ids_by column (x ∷ cs) c id (inl p) e =
    In-cons_some (column x) id (ids_by column cs) (inl (let q = ap column p in cc))
In-ids_by column (x ∷ cs) c id (inr m) e =
    In-cons_some (column x) id (ids_by column cs) (inr (In-ids_by column cs c id m e))

module _ {A : Type 0} (column : A → Option SimpleId) (text : A → Text)
    (lookup : List A → SimpleId → Outcome Text) (P : A → Type 0)
    (head : (c : A) (cs : List A) → P c → write_column (lookup (c ∷ cs)) (column c) ≡ ok (text c))
    (skip : (c : A) (cs : List A) (id : SimpleId)
      → column c ≢ some id
      → lookup (c ∷ cs) id ≡ lookup cs id) where
  abbrev Writes : List A → A → Type 0
  Writes cs c = write_column (lookup cs) (column c) ≡ ok (text c)

  skip-column :
      (h : A) (cs : List A) (o : Option SimpleId)
      → ((id : SimpleId) → o ≡ some id → column h ≢ some id)
      → write_column (lookup (h ∷ cs)) o ≡ write_column (lookup cs) o
  unfolding write_column
  skip-column h cs none ne = refl
  skip-column h cs (some id) ne = skip h cs id (ne id refl)

  all-Writes : (cs : List A) → AreDistinct (ids_by column cs) → All P cs → All (Writes cs) cs
  all-Writes [] d s = tt
  all-Writes (h ∷ cs) d s =
      let ids = ids_by column cs in
      let ih = all-Writes cs (tail-AreDistinct (column h) ids d) s.1 in
      (
        head h cs s.0,
        All_of_In cs (λ c m.
            skip-column h cs (column c)
              (λ id e. head_ne (column h) id ids d (In-ids_by column cs c id m e))
            ∙ All-In (Writes cs) cs c ih m),
      )

  -- With distinct ids each category is the first one with its id.
  pub write_row-lookup :
      (cs : List A)
      → AreDistinct (ids_by column cs)
      → All P cs
      → write_row (lookup cs) (map column cs) ≡ ok (join (map text cs))
  write_row-lookup cs d s = write_row-join (lookup cs) column text cs (all-Writes cs d s)
