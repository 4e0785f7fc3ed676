-- ===== src/Building/Finalize/Prepared.antt =====
-- On a complete builder the stages up to the removal of duplicates do not panic.
use osmgraphing.Prelude.{
  ℕ, ◌<◌, ◌≡◌, refl, sym, ap, ◌∙◌, inl, inr, List, [], ◌∷◌, map, All, All-imp, All_of_In, All-In,
  arith, length, length-map, Bool-cases, subst,
}
use osmgraphing.Prelude.Int.{compare_ℤ}
use osmgraphing.Rust.Outcome.{ok, ◌>>=◌}
use osmgraphing.Rust.Float.{Float64}
use osmgraphing.Rust.Search.{IsAscending}
use osmgraphing.Rust.Sort.{kept}
use osmgraphing.Network.Graph.{EdgeIdx, Graph, NodeAccessor, nodes, node_level}
use osmgraphing.Building.Protos.{ProtoEdgeA, ProtoEdgeB, GraphBuilder}
use osmgraphing.Building.Chunks.{in_chunks_lem}
use osmgraphing.Building.Remap.{IsUnique, old_indices}
use osmgraphing.Building.Dedup.{is_duplicate, remove_duplicates, dedup_loop}
use osmgraphing.Building.Dedup.Reference.{removed}
use osmgraphing.Building.Dedup.InPlace.{remove_duplicates_lem}
use osmgraphing.Building.Stages.{compare_key, replace_ids, sort_forward}
use osmgraphing.Building.Finalize.{unique_edges}
use osmgraphing.Building.Finalize.Order.{sort_forward-IsSorted}
use osmgraphing.Building.Finalize.Replaced.{IsComplete, IsBetween, replace_ids_total}
use osmgraphing.Building.Finalize.Sorted.{sort_by_key_total}
use osmgraphing.Building.Finalize.Corrected.{
  AreBelow, RefersTo, index_total, remap_shortcuts_total, correct_shortcuts_total,
}

-- The edges and shortcuts of a builder fit to the nodes.
pub record IsReady {F C D : Type 0} (n : NodeAccessor D) (b : GraphBuilder F C) : Type 0 where
  pub ascending : IsAscending compare_ℤ n.node_ids
  pub levels : length n.node_ch_levels ≡ length n.node_ids
  pub complete : All (IsComplete n.node_ids (length b.proto_shortcuts) b.cfg.dim) b.proto_edges
  pub low : All (λ o. o < length b.proto_edges) (map (λ a. a.idx) b.proto_edges)
  pub unique : IsUnique (map (λ a. a.idx) b.proto_edges)
  pub halves : All (AreBelow (length b.proto_edges)) b.proto_shortcuts

pub All-map :
    {A B : Type 0} (P : B → Type 0) (g : A → B) (xs : List A)
    → All P (map g xs)
    → All (λ x. P (g x)) xs
All-map P g [] h = tt
All-map P g (x ∷ xs) h = (h.0, All-map P g xs h.1)

pub All-map_of :
    {A B : Type 0} (P : B → Type 0) (g : A → B) (xs : List A)
    → All (λ x. P (g x)) xs
    → All P (map g xs)
All-map_of P g [] h = tt
All-map_of P g (x ∷ xs) h = (h.0, All-map_of P g xs h.1)

module _ {F : Type 0} ⦃f : Float64 F⦄ where
  All-kept :
      (P : ProtoEdgeB F → Type 0) (last : ProtoEdgeB F) (es : List (ProtoEdgeB F))
      → All P es
      → All P (kept is_duplicate last es)
  unfolding kept
  All-kept P last [] h = tt
  All-kept P last (e ∷ es) h = elim (Bool-cases (is_duplicate last e)) [
    | inl d ↦ rw d (All-kept P last es h.1)
    | inr n ↦ rw n (h.0, All-kept P e es h.1)
  ]

  remove_duplicates_total :
      (P : ProtoEdgeB F → Type 0) (es : List (ProtoEdgeB F))
      → All P es
      → (unique : List (ProtoEdgeB F) × List ℕ) × (remove_duplicates is_duplicate es ≡ ok unique)
        × All P unique.0
  unfolding remove_duplicates dedup_loop
  remove_duplicates_total P [] h = (([], []), refl, tt)
  remove_duplicates_total P (e ∷ es) h = (
    (e ∷ kept is_duplicate e es, removed is_duplicate e 1 es),
    remove_duplicates_lem is_duplicate e es,
    (h.0, All-kept P e es h.1),
  )

module _ {F C : Type 0} (n : NodeAccessor C) where
  -- The sorting ends, on edges between nodes with levels.
  sort_forward_total :
      (k d : ℕ) (es : List (ProtoEdgeB F))
      → length n.node_ch_levels ≡ length n.node_ids
      → All (IsBetween (length n.node_ids) k d) es
      → (s : List (ProtoEdgeB F)) × (sort_forward n es ≡ ok s)
        × (length s ≡ length es)
        × (IsUnique (old_indices es) → IsUnique (old_indices s))
  unfolding sort_forward node_level
  sort_forward_total k d es levels between =
      sort_by_key_total compare_key
        (λ e. node_level n e.dst_idx >>= λ level.
          ok (record { first = e.src_idx; level = level; second = e.dst_idx; id = e.id }))
        (λ e. e.idx) es
        (All-imp
          (λ e h.
            let (level, read, _) =
              index_total n.node_ch_levels e.dst_idx (omega (arith, h.dst, levels)) in
            (
              record { first = e.src_idx; level = level; second = e.dst_idx; id = e.id },
              rw read refl,
            ))
          es between)

module _ {F : Type 0} ⦃f : Float64 F⦄ {C : Type 0} where
  pub unique_edges_total :
      (size : ℕ) (graph : Graph F C) (b : GraphBuilder F C)
      → 0 < size
      → IsReady (nodes graph) b
      → (unique : List (ProtoEdgeB F) × List (EdgeIdx × EdgeIdx)) × (unique_edges size graph b
          ≡ ok unique)
        × All (IsBetween (length (nodes graph).node_ids) (length unique.1) b.cfg.dim) unique.0
  unfolding unique_edges
  unique_edges_total size graph b positive h =
      let n = nodes graph in
      let k = length b.proto_shortcuts in
      let m = length b.proto_edges in
      let whole = in_chunks_lem size (replace_ids n) b.proto_edges [] positive in
      let (bs, replaced, between, idx) =
        replace_ids_total n h.ascending k b.cfg.dim b.proto_edges [] h.complete in
      let (s, sorted, len, uniq) = sort_forward_total n k b.cfg.dim bs h.levels between in
      let (_, same) = sort_forward-IsSorted n bs s sorted in
      let size_bs : length bs ≡ m =
        sym (length-map bs (λ (e : ProtoEdgeB F). e.idx))
        ∙ ap length idx
        ∙ length-map b.proto_edges (λ (a : ProtoEdgeA F). a.idx) in
      let across = λ (P : ProtoEdgeB F → Type 0) (all : All P bs).
        All_of_In s (λ e q. All-In P bs e all ((same e).0 q)) in
      let between_s = across (IsBetween (length n.node_ids) k b.cfg.dim) between in
      let low_bs =
        All-map (λ o. o < m) (λ (e : ProtoEdgeB F). e.idx) bs
          (subst (All (λ o. o < m)) (sym idx) h.low) in
      let size_s : length s ≡ m = len ∙ size_bs in
      let low_s =
        All-map_of (λ o. o < length s) (λ (e : ProtoEdgeB F). e.idx) s
          (All-imp (λ e q. omega (arith, q, size_s)) s (across (λ e. e.idx < m) low_bs)) in
      let (scs, remapped, size_scs) =
        remap_shortcuts_total s b.proto_shortcuts low_s (uniq (subst IsUnique (sym idx) h.unique))
          (All-imp (λ e q. q.shortcut) s between_s)
          (subst (λ j. All (AreBelow j) b.proto_shortcuts) (sym size_s) h.halves) in
      let (u, deduped, between_u) =
        remove_duplicates_total (IsBetween (length n.node_ids) k b.cfg.dim) s between_s in
      let refers_u =
        subst (λ j. All (RefersTo j) u.0) (sym size_scs)
          (All-imp (λ e q. q.shortcut) u.0 between_u) in
      let (scs', correctly, size_scs') = correct_shortcuts_total u.1 u.0 scs refers_u in
      (
        (u.0, scs'),
        rw whole (rw (replaced, sorted, remapped, deduped, correctly) refl),
        subst (λ j. All (IsBetween (length n.node_ids) j b.cfg.dim) u.0)
            (sym (size_scs' ∙ size_scs)) between_u,
      )
