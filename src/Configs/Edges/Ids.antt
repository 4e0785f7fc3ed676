-- ===== src/Configs/Edges/Ids.antt =====
-- The check of the ids succeeds exactly if no id occurs twice.
use osmgraphing.Prelude.{◌≡◌, refl, ◌↔◌, ◌⊎◌, inl, true, List, [], ◌∷◌, In, arith, ==_iff}
use osmgraphing.Rust.Outcome.{ok, err, duplicate_config_id}
use osmgraphing.Network.Street.Text.{Text, text_eq}
use osmgraphing.Configs.Metrics.{SimpleId}
use osmgraphing.Configs.Edges.{ProtoCategory, occurs, check_ids}

pub text_eq_iff : (s t : Text) → (text_eq s t ≡ true) ↔ (s ≡ t)
unfolding text_eq
text_eq_iff [] [] = (λ h. refl, λ h. refl)
text_eq_iff [] (d ∷ t) = (λ h. cc, λ h. cc)
text_eq_iff (c ∷ s) [] = (λ h. cc, λ h. cc)
text_eq_iff (c ∷ s) (d ∷ t) = ground (arith, text_eq_iff s t, ==_iff c d)

-- The ids of the categories that have one.
abbrev pub ids_of : List ProtoCategory → List SimpleId
ids_of [] = []
ids_of (ProtoCategory.meta info id ∷ categories) = id ∷ ids_of categories
ids_of (ProtoCategory.metric unit id ∷ categories) = id ∷ ids_of categories
ids_of (ProtoCategory.ignored ∷ categories) = ids_of categories

abbrev pub AreDistinct : List SimpleId → Type 0
AreDistinct [] = Unit
AreDistinct (id ∷ ids) = (¬ In id ids) × AreDistinct ids

occurs_iff :
    (id : SimpleId) (categories : List ProtoCategory)
    → (occurs id categories ≡ true) ↔ In id (ids_of categories)
unfolding occurs
occurs_iff id [] = (λ h. cc, λ m. absurd m)
occurs_iff id (ProtoCategory.meta info id_j ∷ categories) =
    ground (arith, occurs_iff id categories, text_eq_iff id id_j)
occurs_iff id (ProtoCategory.metric unit id_j ∷ categories) =
    ground (arith, occurs_iff id categories, text_eq_iff id id_j)
occurs_iff id (ProtoCategory.ignored ∷ categories) = occurs_iff id categories

-- The check either succeeds on distinct ids, or reports an id that occurs twice.
pub check_ids_cases :
    (categories : List ProtoCategory)
    → (AreDistinct (ids_of categories) × (check_ids categories ≡ ok tt))
      ⊎ ((¬ AreDistinct (ids_of categories))
          × (id : SimpleId) × In id (ids_of categories)
          × (check_ids categories ≡ err (duplicate_config_id id)))
unfolding check_ids
check_ids_cases [] = inl (tt, refl)
check_ids_cases (ProtoCategory.meta info id ∷ categories) =
    ground (arith, occurs_iff id categories, check_ids_cases categories)
check_ids_cases (ProtoCategory.metric unit id ∷ categories) =
    ground (arith, occurs_iff id categories, check_ids_cases categories)
check_ids_cases (ProtoCategory.ignored ∷ categories) = check_ids_cases categories
