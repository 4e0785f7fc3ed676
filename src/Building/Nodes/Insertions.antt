-- ===== src/Building/Nodes/Insertions.antt =====
-- network/graph/building.rs: several calls of `NodeBuilder::insert`, one behind the other.
use osmgraphing.Prelude.{
  ℕ, ◌≡◌, refl, sym, ap, ◌∙◌, inl, inr, Bool, true, false, Option, none, some, List, [], ◌∷◌, ◌++◌,
  length, set, length-set, length-replicate,
}
use osmgraphing.Prelude.Int.{compare_ℤ}
use osmgraphing.Rust.Outcome.{Outcome, ok, ok_inj, returned, ◌>>=◌}
use osmgraphing.Rust.Search.{binary_search, Found-cases}
use osmgraphing.Building.Protos.{ProtoNode, EdgeBuilder, NodeBuilder}
use osmgraphing.Building.Nodes.{insert_node, next_nodes}
use osmgraphing.Building.Nodes.Coordinates.{IsSized, Written, insert_node_at}

module _ {F C : Type 0} where
  abbrev pub insert_nodes : NodeBuilder F C → List (ProtoNode C) → Outcome (NodeBuilder F C)
  insert_nodes b [] = ok b
  insert_nodes b (p ∷ ps) = insert_node b p >>= λ inserted. insert_nodes inserted.0 ps

  -- The builder with other coordinates and levels.
  abbrev pub with_places : NodeBuilder F C → List (Option C) → List ℕ → NodeBuilder F C
  with_places b coords levels = record b { node_coords = coords; node_ch_levels = levels }

  -- Coordinates and levels, as many as there were.
  abbrev pub AsMany : NodeBuilder F C → List (Option C) → List ℕ → Type 0
  AsMany b coords levels =
      (length coords ≡ length b.node_coords) × (length levels ≡ length b.node_ch_levels)

  length-levels :
      (b : NodeBuilder F C) (idx : ℕ) (level : Option ℕ)
      → length (elim level [ none ↦ b.node_ch_levels | some l ↦ set b.node_ch_levels idx l ])
        ≡ length b.node_ch_levels
  length-levels b idx none = refl
  length-levels b idx (some l) = length-set b.node_ch_levels idx l

  Written-shape :
      (b : NodeBuilder F C) (idx : ℕ) (coord : C) (level : Option ℕ) (t : NodeBuilder F C)
      → Written b idx coord level t
      → (with_places b t.node_coords t.node_ch_levels ≡ t) × AsMany b t.node_coords t.node_ch_levels
  Written-shape b idx coord level t w = (
    (let e = w.cfg in let ids = w.node_ids in let es = w.edges in let scs = w.shortcuts in cc),
    (
      ap length w.coords ∙ length-set b.node_coords idx (some coord),
      ap length w.levels ∙ length-levels b idx level,
    ),
  )

  insert_node_total :
      (b : NodeBuilder F C) (p : ProtoNode C)
      → IsSized b
      → (coords : List (Option C)) × (levels : List ℕ) × (found : Bool) × AsMany b coords levels
        × (insert_node b p ≡ ok (with_places b coords levels, found))
  unfolding insert_node
  insert_node_total b p sized = elim (Found-cases (binary_search compare_ℤ b.node_ids p.id)) [
    | inl (idx, e) ↦
        let (t, found, inserted, written) = insert_node_at b p idx sized e in
        let (same, many) = Written-shape b idx p.coord p.ch_level t written in
        (t.node_coords, t.node_ch_levels, true, many, inserted ∙ ap (λ t. ok (t, true)) (sym same))
    | inr (idx, e) ↦
        (b.node_coords, b.node_ch_levels, false, (refl, refl), rw (e, insert_node) refl)
  ]

  pub insert_nodes_total :
      (b : NodeBuilder F C) (ps : List (ProtoNode C))
      → IsSized b
      → (coords : List (Option C)) × (levels : List ℕ) × AsMany b coords levels
        × (insert_nodes b ps ≡ ok (with_places b coords levels))
  insert_nodes_total b [] sized = (b.node_coords, b.node_ch_levels, (refl, refl), refl)
  insert_nodes_total b (p ∷ ps) (size, size') =
      let (cs, ls, found, (many, many'), inserted) = insert_node_total b p (size, size') in
      let (cs', ls', (more, more'), rest) =
        insert_nodes_total (with_places b cs ls) ps (many ∙ size, many' ∙ size') in
      (cs', ls', (more ∙ many, more' ∙ many'), rw inserted rest)

  pub insert_nodes-snoc :
      (b s : NodeBuilder F C) (ps : List (ProtoNode C)) (p : ProtoNode C)
      (inserted : NodeBuilder F C × Bool)
      → insert_nodes b ps ≡ ok s
      → insert_node s p ≡ ok inserted
      → insert_nodes b (ps ++ p ∷ []) ≡ ok inserted.0
  insert_nodes-snoc b s [] p inserted same one = rw (ok_inj same, one) refl
  insert_nodes-snoc b s (q ∷ ps) p inserted same one =
      let (d, rest, first) = returned s (insert_node b q) (λ d. insert_nodes d.0 ps) same in
      rw first (insert_nodes-snoc d.0 s ps p inserted rest one)

pub next_nodes-IsSized :
    {F : Type 0} (C : Type 0) (edges : EdgeBuilder F) → IsSized (next_nodes {C = C} edges)
unfolding next_nodes
next_nodes-IsSized C edges =
    let ids = (next_nodes {C = C} edges).node_ids in
    (length-replicate {A = Option C} (length ids) none, length-replicate {A = ℕ} (length ids) 0)
