-- ===== src/Building/Finalize/Corrected.antt =====
-- The loops over the shortcuts do not panic, where every shortcut-edge refers to a stored shortcut
-- of two edges.
use osmgraphing.Prelude.{
  ℕ, zero, suc, ◌+◌, ◌<◌, ◌≤◌, ◌≡◌, refl, sym, ap, ◌∙◌, inl, inr, some, List, [], ◌∷◌, All, All-imp,
  All-get_elem?, arith, length, length-set, length-map, length-replicate, set, get_elem?,
  get_elem?_total, Option-cases, replicate, subst,
}
use osmgraphing.Rust.Outcome.{ok, ok_inj, returned}
use osmgraphing.Rust.Vec.{index, store, index-eq-ok}
use osmgraphing.Network.Graph.{EdgeIdx}
use osmgraphing.Building.Protos.{ProtoEdgeB}
use osmgraphing.Building.Dedup.{correct_shortcut}
use osmgraphing.Building.Remap.{
  fill_indices, map_indices, map_indices_total, update_shortcuts, remap_shortcuts, old_indices,
  IsUnique,
}
use osmgraphing.Building.Stages.{correct_shortcuts}

All-set :
    {A : Type 0} (P : A → Type 0) (xs : List A) (i : ℕ) (v : A)
    → All P xs
    → P v
    → All P (set xs i v)
All-set P [] i v h p = tt
All-set P (x ∷ xs) zero v h p = (p, h.1)
All-set P (x ∷ xs) (suc i) v h p = (h.0, All-set P xs i v h.1 p)

store_total :
    {A : Type 0} (xs : List A) (i : ℕ) (v : A) → i < length xs → store xs i v ≡ ok (set xs i v)
store_total xs i v h = ground arith

pub index_total :
    {A : Type 0} (xs : List A) (i : ℕ)
    → i < length xs
    → (v : A) × (index xs i ≡ ok v) × (get_elem? xs i ≡ some v)
index_total xs i h = let (v, e) = get_elem?_total xs i h in (v, (index-eq-ok xs i v).1 e, e)

-- The mapping of indices has positions only.
fill_indices-below :
    (m k : ℕ) (olds acc t : List ℕ)
    → fill_indices k olds acc ≡ ok t
    → k + length olds ≤ m
    → All (λ v. v < m) acc
    → All (λ v. v < m) t × (length t ≡ length acc)
unfolding fill_indices
fill_indices-below m k [] acc t h fits below = let q : acc ≡ t = ok_inj h in rw (← q) (below, refl)
fill_indices-below m k (x ∷ xs) acc t h fits below =
    let (acc', rest, stored) = returned t (store acc x k) (fill_indices (k + 1) xs) h in
    let shape : set acc x k ≡ acc' = ground arith in
    let (all, size) =
      fill_indices-below m (k + 1) xs acc' t rest (omega arith)
        (subst (All (λ v. v < m)) shape (All-set (λ v. v < m) acc x k below (omega arith))) in
    (all, size ∙ ap length (sym shape) ∙ length-set acc x k)

-- Both halves of a shortcut are among the first `m` edges.
abbrev pub AreBelow : ℕ → EdgeIdx × EdgeIdx → Type 0
AreBelow m s = (s.0 < m) × (s.1 < m)

abbrev pub RefersTo : {F : Type 0} → ℕ → ProtoEdgeB F → Type 0
RefersTo k e = (j : ℕ) → e.sc_edges ≡ some j → j < k

zeros_below : (k m : ℕ) → k ≤ m → All (λ v. v < m) (replicate k 0)
zeros_below zero m h = tt
zeros_below (suc k) m h = (omega arith, zeros_below k m (omega arith))

module _ {F : Type 0} where
  update_shortcuts_total :
      (m : ℕ) (new_indices : List ℕ) (es : List (ProtoEdgeB F)) (scs : List (EdgeIdx × EdgeIdx))
      → length new_indices ≡ m
      → All (λ v. v < m) new_indices
      → All (RefersTo (length scs)) es
      → All (AreBelow m) scs
      → (t : List (EdgeIdx × EdgeIdx)) × (update_shortcuts new_indices es scs ≡ ok t)
        × (length t ≡ length scs)
  unfolding update_shortcuts
  update_shortcuts_total m ns [] scs size below refers halves = (scs, refl, refl)
  update_shortcuts_total m ns (e ∷ es) scs size below refers halves =
      elim (Option-cases e.sc_edges) [
        | inl q ↦
            let (t, ends, same) = update_shortcuts_total m ns es scs size below refers.1 halves in
            (t, rw (update_shortcuts, q) ends, same)
        | inr (j, q) ↦
            let (old, read, at_j) = index_total scs j (refers.0 j q) in
            let both = All-get_elem? (AreBelow m) scs j old halves at_j in
            let (a, read_a, at_a) = index_total ns old.0 (omega (arith, size, both.0)) in
            let (b, read_b, at_b) = index_total ns old.1 (omega (arith, size, both.1)) in
            let low_a = All-get_elem? (λ v. v < m) ns old.0 a below at_a in
            let low_b = All-get_elem? (λ v. v < m) ns old.1 b below at_b in
            let kept_size = length-set scs j (a, b) in
            let (t, ends, same) =
              update_shortcuts_total m ns es (set scs j (a, b)) size below
                (All-imp (λ x r i p. omega (arith, kept_size, r i p)) es refers.1)
                (All-set (AreBelow m) scs j (a, b) halves (low_a, low_b)) in
            (
              t,
              rw
                  (
                    update_shortcuts,
                    q,
                    read,
                    read_a,
                    read_b,
                    store_total scs j (a, b) (refers.0 j q),
                  )
                  ends,
              same ∙ kept_size,
            )
      ]

  -- The remapping of the shortcuts ends.
  pub remap_shortcuts_total :
      (es : List (ProtoEdgeB F)) (scs : List (EdgeIdx × EdgeIdx))
      → All (λ o. o < length es) (old_indices es)
      → IsUnique (old_indices es)
      → All (RefersTo (length scs)) es
      → All (AreBelow (length es)) scs
      → (t : List (EdgeIdx × EdgeIdx)) × (remap_shortcuts es scs ≡ ok t) × (length t ≡ length scs)
  unfolding remap_shortcuts map_indices
  remap_shortcuts_total es scs low unique refers halves =
      let (ns, mapped, _) = map_indices_total es low unique in
      let fits = length-map es (λ (e : ProtoEdgeB F). e.idx) in
      let (below, size) =
        fill_indices-below (length es) 0 (old_indices es) (replicate (length es) 0) ns mapped
          (omega (arith, fits)) (zeros_below (length es) (length es) (omega arith)) in
      let (t, ends, same) =
        update_shortcuts_total (length es) ns es scs (size ∙ length-replicate (length es) 0) below
          refers halves in
      (t, rw mapped ends, same)

  -- The correction behind the removal of duplicates ends.
  pub correct_shortcuts_total :
      (removed : List ℕ) (es : List (ProtoEdgeB F)) (scs : List (EdgeIdx × EdgeIdx))
      → All (RefersTo (length scs)) es
      → (t : List (EdgeIdx × EdgeIdx)) × (correct_shortcuts removed es scs ≡ ok t)
        × (length t ≡ length scs)
  unfolding correct_shortcuts
  correct_shortcuts_total removed [] scs refers = (scs, refl, refl)
  correct_shortcuts_total removed (e ∷ es) scs refers = elim (Option-cases e.sc_edges) [
    | inl q ↦
        let (t, ends, same) = correct_shortcuts_total removed es scs refers.1 in
        (t, rw (correct_shortcuts, q) ends, same)
    | inr (j, q) ↦
        let (old, read, at_j) = index_total scs j (refers.0 j q) in
        let new = correct_shortcut removed old in
        let kept_size = length-set scs j new in
        let (t, ends, same) =
          correct_shortcuts_total removed es (set scs j new)
            (All-imp (λ x r i p. omega (arith, kept_size, r i p)) es refers.1) in
        (
          t,
          rw (correct_shortcuts, q, read, store_total scs j new (refers.0 j q)) ends,
          same ∙ kept_size,
        )
  ]
