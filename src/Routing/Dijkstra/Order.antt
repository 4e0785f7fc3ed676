-- ===== src/Routing/Dijkstra/Order.antt =====
-- Costs as they are without NaN: `partial_cmp` compares their ranks. Then the queue's order is
-- total, and `pop` takes a node out and leaves the others.
use osmgraphing.Prelude.{
  ℕ, suc, ◌≡◌, refl, ap, some, List, [], ◌∷◌, length, arith, All, compare, Ordering, ltb, leb, ◌==◌,
  Bool-cases, inl, inr,
}
use osmgraphing.Rust.Outcome.{ok}
use osmgraphing.Rust.Float.{Float64, flt, fle, feq}
use osmgraphing.Approximating.{approx_eq, approx_partial_cmp, approx_cmp}
use osmgraphing.Routing.Dijkstra.State.{
  CostNode, compare_costnode, compare_direction, then_with, select_min, pop,
}

-- No cost is NaN, and the costs' order is that of their ranks.
abbrev pub IsRanked : {F : Type 0} → Float64 F → (F → ℕ) → Type 0
IsRanked {F} f rank = (a b : F) → f.partial_cmp a b ≡ some (compare (rank a) (rank b))

module _ {F : Type 0} ⦃f : Float64 F⦄ (rank : F → ℕ) (ranked : IsRanked f rank) where
  pub flt-eq-ltb : (a b : F) → flt a b ≡ ltb (rank a) (rank b)
  flt-eq-ltb a b = rw (ranked a b, flt) (ground arith)

  pub fle-eq-leb : (a b : F) → fle a b ≡ leb (rank a) (rank b)
  fle-eq-leb a b = rw (ranked a b, fle) (ground arith)

  pub feq-eq-== : (a b : F) → feq a b ≡ (rank a == rank b)
  feq-eq-== a b = rw (ranked a b, feq) (ground arith)

  approx_cmp_total : (a b : F) → (o : Ordering) × (approx_cmp a b ≡ ok o)
  unfolding approx_cmp approx_partial_cmp
  approx_cmp_total a b = elim (Bool-cases (approx_eq a b)) [
    | inl same ↦ (Ordering.eq, rw same refl)
    | inr apart ↦ (compare (rank a) (rank b), rw (apart, ranked a b) refl)
  ]

  compare_costnode_total : (a b : CostNode F) → (o : Ordering) × (compare_costnode a b ≡ ok o)
  unfolding compare_costnode
  compare_costnode_total a b =
      let (o, e) = approx_cmp_total a.cost b.cost in
      (
        then_with (then_with o (compare a.idx b.idx)) (compare_direction a.direction b.direction),
        rw e refl,
      )

  select_min_total :
      (P : CostNode F → Type 0) (best : CostNode F) (ns : List (CostNode F))
      → P best
      → All P ns
      → (m : CostNode F) × (rest : List (CostNode F)) × (select_min best ns ≡ ok (m, rest))
        × (length rest ≡ length ns)
        × P m
        × All P rest
  unfolding select_min
  select_min_total P best [] p ps = (best, [], refl, refl, p, tt)
  select_min_total P best (n ∷ ns) p ps =
      let (o, e) = compare_costnode_total n best in
      choose o e (select_min_total P n ns ps.0 ps.1) (select_min_total P best ns p ps.1)
    where
      Taken : CostNode F → Type 0
      Taken b =
          (m : CostNode F) × (rest : List (CostNode F)) × (select_min b ns ≡ ok (m, rest))
          × (length rest ≡ length ns)
          × P m
          × All P rest

      choose :
          (o : Ordering)
          → compare_costnode n best ≡ ok o
          → Taken n
          → Taken best
          → (m : CostNode F) × (rest : List (CostNode F)) × (select_min best (n ∷ ns)
              ≡ ok (m, rest))
            × (length rest ≡ length (n ∷ ns))
            × P m
            × All P rest
      choose Ordering.lt e (m, rest, found, size, pm, qs) other =
          (m, best ∷ rest, rw e (rw found refl), ap suc size, pm, (p, qs))
      choose Ordering.eq e other (m, rest, found, size, pm, qs) =
          (m, n ∷ rest, rw e (rw found refl), ap suc size, pm, (ps.0, qs))
      choose Ordering.gt e other (m, rest, found, size, pm, qs) =
          (m, n ∷ rest, rw e (rw found refl), ap suc size, pm, (ps.0, qs))

  -- A queue with nodes loses one of them, and what holds of all nodes holds of it and of the rest.
  pub pop_total :
      (P : CostNode F → Type 0) (n : CostNode F) (ns : List (CostNode F))
      → All P (n ∷ ns)
      → (m : CostNode F) × (rest : List (CostNode F)) × (pop (n ∷ ns) ≡ ok (some (m, rest)))
        × (length rest ≡ length ns)
        × P m
        × All P rest
  unfolding pop
  pop_total P n ns ps =
      let (m, rest, e, size, p, qs) = select_min_total P n ns ps.0 ps.1 in
      (m, rest, rw e refl, size, p, qs)
