-- ===== src/Building/Nodes/Coordinates.antt =====
-- `NodeBuilder::insert` and the check for coordinates.
use osmgraphing.Prelude.{
  ℕ, suc, ◌+◌, ◌≡◌, refl, sym, ◌∙◌, ◌⊎◌, inl, inr, true, false, Option, none, some, List, [], ◌∷◌,
  ◌++◌, In, arith, length, map, set, get_elem?, ltb, ◌<◌, lt-length_of_get_elem?,
}
use osmgraphing.Prelude.Int.{ℤ, compare_ℤ, eq_of_compare_ℤ, compare_ℤ_refl}
use osmgraphing.Rust.Outcome.{ok, err, no_coordinates}
use osmgraphing.Rust.Search.{
  Found-cases, at, missing, binary_search, binary_search_found, binary_search_complete, IsAscending,
}
use osmgraphing.Building.Protos.{ProtoNode, NodeBuilder}
use osmgraphing.Building.Nodes.{write_node, insert_node, check_coordinates}

module _ {F C : Type 0} where
  -- What the writes do at the position `idx` of the node: the coordinate is replaced, the level
  -- if there is a new one, and nothing else changes.
  pub record Written (b : NodeBuilder F C) (idx : ℕ) (coord : C) (level : Option ℕ)
      (t : NodeBuilder F C) : Type 0 where
    pub cfg : t.cfg ≡ b.cfg
    pub node_ids : t.node_ids ≡ b.node_ids
    pub coords : t.node_coords ≡ set b.node_coords idx (some coord)
    pub levels :
        t.node_ch_levels
        ≡ elim level [ none ↦ b.node_ch_levels | some l ↦ set b.node_ch_levels idx l ]
    pub edges : t.proto_edges ≡ b.proto_edges
    pub shortcuts : t.proto_shortcuts ≡ b.proto_shortcuts

  -- There is a place for the coordinate and for the level of every id.
  abbrev pub IsSized : NodeBuilder F C → Type 0
  IsSized b =
      (length b.node_coords ≡ length b.node_ids) × (length b.node_ch_levels ≡ length b.node_ids)

  write_node_lem :
      (b : NodeBuilder F C) (idx : ℕ) (coord : C) (level : Option ℕ)
      → IsSized b
      → idx < length b.node_ids
      → (t : NodeBuilder F C) × (write_node b idx coord level ≡ ok t) × Written b idx coord level t
  unfolding write_node
  write_node_lem b idx coord none (size, levels) below =
      let stored : ltb idx (length b.node_coords) ≡ true = ground (arith, size) in
      (
        record b { node_coords = set b.node_coords idx (some coord) },
        rw stored refl,
        record {
          cfg = refl;
          node_ids = refl;
          coords = refl;
          levels = refl;
          edges = refl;
          shortcuts = refl;
        },
      )
  write_node_lem b idx coord (some l) (size, levels) below =
      let stored : ltb idx (length b.node_coords) ≡ true = ground (arith, size) in
      let stored' : ltb idx (length b.node_ch_levels) ≡ true = ground (arith, levels) in
      (
        record b {
          node_coords = set b.node_coords idx (some coord);
          node_ch_levels = set b.node_ch_levels idx l;
        },
        rw (stored, stored') refl,
        record {
          cfg = refl;
          node_ids = refl;
          coords = refl;
          levels = refl;
          edges = refl;
          shortcuts = refl;
        },
      )

  pub insert_node_at :
      (b : NodeBuilder F C) (p : ProtoNode C) (idx : ℕ)
      → IsSized b
      → binary_search compare_ℤ b.node_ids p.id ≡ at idx
      → (t : NodeBuilder F C) × (get_elem? b.node_ids idx ≡ some p.id)
        × (insert_node b p ≡ ok (t, true))
        × Written b idx p.coord p.ch_level t
  unfolding insert_node
  insert_node_at b p idx sized e =
      let found = binary_search_found compare_ℤ eq_of_compare_ℤ b.node_ids p.id idx e in
      let (t, writes, written) =
        write_node_lem b idx p.coord p.ch_level sized
          (lt-length_of_get_elem? b.node_ids idx p.id found) in
      (t, found, rw (e, insert_node) (rw writes refl), written)

  -- With strictly ascending node-ids and as many coordinates and levels as node-ids,
  -- `NodeBuilder::insert` does not panic: it either returns true and sets the coordinate, and the
  -- level if there is a new one, at the position of the node's id and nowhere else, or the id is
  -- not among the node-ids, and it returns false and changes nothing.
  pub insert_node_lem :
      (b : NodeBuilder F C) (p : ProtoNode C)
      → IsAscending compare_ℤ b.node_ids
      → IsSized b
      → ((idx : ℕ) × (t : NodeBuilder F C) × (get_elem? b.node_ids idx ≡ some p.id)
          × (insert_node b p ≡ ok (t, true))
          × Written b idx p.coord p.ch_level t)
        ⊎ ((¬ In p.id b.node_ids) × (insert_node b p ≡ ok (b, false)))
  unfolding insert_node
  insert_node_lem b p sorted sized = elim (Found-cases (binary_search compare_ℤ b.node_ids p.id)) [
    | inl (idx, e) ↦
        let (t, found, inserted, written) = insert_node_at b p idx sized e in
        inl (idx, t, found, inserted, written)
    | inr (idx, e) ↦ inr (
      λ m.
          let (i, found) =
            binary_search_complete compare_ℤ compare_ℤ_refl b.node_ids p.id sorted m in
          (let clash : at i ≡ missing idx = sym found ∙ e in cc),
      rw (e, insert_node) refl,
    )
  ]

-- All coordinates are there, and they are returned.
pub check_coordinates_ok :
    {C : Type 0} (ids : List ℤ) (n : ℕ) (cs : List C)
    → check_coordinates ids n (map some cs) ≡ ok cs
unfolding check_coordinates
check_coordinates_ok ids n [] = refl
check_coordinates_ok ids n (c ∷ cs) = rw (check_coordinates_ok ids (n + 1) cs)

-- If the first node without a coordinate stands behind those with the coordinates `cs` and has the
-- id `id`, then the check fails with the error for this id.
pub check_coordinates_err :
    {C : Type 0} (ids : List ℤ) (n : ℕ) (cs : List C) (rest : List (Option C)) (id : ℤ)
    → get_elem? ids (n + length cs) ≡ some id
    → check_coordinates ids n (map some cs ++ none ∷ rest) ≡ err (no_coordinates id)
unfolding check_coordinates
check_coordinates_err ids n [] rest id h =
    let q : n + 0 ≡ n = omega arith in let e : get_elem? ids n ≡ some id = rw q at h in rw e
check_coordinates_err ids n (c ∷ cs) rest id h =
    let q : n + suc (length cs) ≡ n + 1 + length cs = omega arith in
    rw (check_coordinates_err ids (n + 1) cs rest id (rw q at h))
