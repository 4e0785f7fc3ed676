-- ===== src/Building/Remap.antt =====
-- network/graph/building.rs, `finalize`: after the edges are sorted, the shortcuts' indices are
-- mapped to the edges' new positions.
use osmgraphing.Prelude.{
  ℕ, zero, suc, ◌+◌, ◌<◌, ◌≡◌, refl, sym, ◌∙◌, inl, inr, none, some, List, [], ◌∷◌, map, length,
  replicate, set, get_elem?, get_elem?-set_self, get_elem?-set_ne, length-set, length-replicate,
  arith, All, All-imp, In, ltb, true,
}
use osmgraphing.Rust.Outcome.{Outcome, ok, ◌>>=◌}
use osmgraphing.Rust.Vec.{index, store}
use osmgraphing.Network.Graph.{EdgeIdx}
use osmgraphing.Building.Protos.{ProtoEdgeB}

-- `new_indices[edge.idx] = new_idx` for each edge, on the edges' old indices from the position
-- `new_idx` on.
unfoldable pub fill_indices : ℕ → List ℕ → List ℕ → Outcome (List ℕ)
fill_indices new_idx [] new_indices = ok new_indices
fill_indices new_idx (old ∷ olds) new_indices =
    store new_indices old new_idx >>= fill_indices (new_idx + 1) olds

-- The mapping from the old index to the new one.
unfoldable pub map_indices : {F : Type 0} → List (ProtoEdgeB F) → Outcome (List ℕ)
unfolding fill_indices
map_indices edges = fill_indices 0 (map (λ e. e.idx) edges) (replicate (length edges) 0)

-- The loop over the edges that updates their shortcuts.
unfoldable pub update_shortcuts :
    {F : Type 0}
    → List ℕ
    → List (ProtoEdgeB F)
    → List (EdgeIdx × EdgeIdx)
    → Outcome (List (EdgeIdx × EdgeIdx))
update_shortcuts new_indices [] proto_shortcuts = ok proto_shortcuts
update_shortcuts new_indices (edge ∷ edges) proto_shortcuts = elim edge.sc_edges [
  | none ↦ update_shortcuts new_indices edges proto_shortcuts
  | some sc_idx ↦ index proto_shortcuts sc_idx >>= λ old. index new_indices old.0 >>= λ first.
      index new_indices old.1 >>= λ second.
      store proto_shortcuts sc_idx (first, second) >>= update_shortcuts new_indices edges
]

-- The whole stage.
unfoldable pub remap_shortcuts :
    {F : Type 0}
    → List (ProtoEdgeB F)
    → List (EdgeIdx × EdgeIdx)
    → Outcome (List (EdgeIdx × EdgeIdx))
unfolding map_indices update_shortcuts
remap_shortcuts edges proto_shortcuts =
    map_indices edges >>= λ new_indices. update_shortcuts new_indices edges proto_shortcuts

-- No index occurs twice.
abbrev pub IsUnique : List ℕ → Type 0
IsUnique [] = Unit
IsUnique (x ∷ xs) = (¬ In x xs) × IsUnique xs

abbrev pub old_indices : {F : Type 0} → List (ProtoEdgeB F) → List ℕ
old_indices = map (λ e. e.idx)

fill_indices_total :
    (k : ℕ) (olds acc : List ℕ)
    → All (λ o. o < length acc) olds
    → IsUnique olds
    → (t : List ℕ) × (fill_indices k olds acc ≡ ok t)
      × ((p o : ℕ) → get_elem? olds p ≡ some o → get_elem? t o ≡ some (k + p))
      × ((o : ℕ) → ¬ In o olds → get_elem? t o ≡ get_elem? acc o)
unfolding fill_indices
fill_indices_total k [] acc below unique = (acc, refl, λ p o e. cc, λ o n. refl)
fill_indices_total k (x ∷ xs) acc below unique =
    let size = length-set acc x k in
    let (t, ends, moved, others) =
      fill_indices_total (k + 1) xs (set acc x k) (All-imp (λ o h. omega (arith, size)) xs below.1)
        unique.1 in
    let stored : ltb x (length acc) ≡ true = (let h = below.0 in ground arith) in
    (
      t,
      rw stored ends,
      at_position t moved others,
      λ o n. others o (λ m. n (inr m)) ∙ get_elem?-set_ne acc k (λ e. n (inl (sym e))),
    )
  where
    at_position :
        (t : List ℕ)
        → ((p o : ℕ) → get_elem? xs p ≡ some o → get_elem? t o ≡ some (k + 1 + p))
        → ((o : ℕ) → ¬ In o xs → get_elem? t o ≡ get_elem? (set acc x k) o)
        → (p o : ℕ) → get_elem? (x ∷ xs) p ≡ some o
        → get_elem? t o ≡ some (k + p)
    at_position t moved others zero o e =
        let same : x ≡ o = cc in
        let here : k + 0 ≡ k = omega arith in
        rw (← same, here) (others x unique.0 ∙ get_elem?-set_self acc x k below.0)
    at_position t moved others (suc p) o e =
        let next : k + suc p ≡ k + 1 + p = omega arith in rw next (moved p o e)

module _ {F : Type 0} where
  -- If the indices that the sorted edges were inserted with are all below the number of edges and
  -- no two are the same, then the mapping of the indices is built without a panic, and it maps
  -- each of them to the position of its edge among the sorted ones.
  pub map_indices_total :
      (edges : List (ProtoEdgeB F))
      → All (λ o. o < length edges) (old_indices edges)
      → IsUnique (old_indices edges)
      → (t : List ℕ) × (map_indices edges ≡ ok t)
        × ((p o : ℕ) → get_elem? (old_indices edges) p ≡ some o → get_elem? t o ≡ some p)
  unfolding map_indices
  map_indices_total edges below unique =
      let size = length-replicate {A = ℕ} (length edges) 0 in
      let (t, ends, moved, others) =
        fill_indices_total 0 (old_indices edges) (replicate (length edges) 0)
          (All-imp (λ o h. omega (arith, size)) (old_indices edges) below) unique in
      (t, ends, λ p o e. moved p o e ∙ (let q : 0 + p ≡ p = omega arith in rw q refl))
