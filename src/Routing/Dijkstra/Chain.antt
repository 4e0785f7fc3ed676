-- ===== src/Routing/Dijkstra/Chain.antt =====
-- routing/dijkstra.rs: what the predecessors of one direction stand for. A chain leads from a node
-- over predecessors to the root of its direction, at costs that do not grow.
use native.Mathlib.Decide.{ℕ_discrete}
use osmgraphing.Prelude.{
  ℕ, ◌<◌, ◌≤◌, ◌≡◌, ◌≢◌, sym, ap, ◌∙◌, Option, none, some, List, [], ◌∷◌, arith, subst,
}
use osmgraphing.Network.Graph.{NodeIdx, EdgeIdx}

-- `pred` and `cost` give each node's predecessor and cost, and `goes e u v` says that the edge `e`
-- leads from `u` to `v` in the search's direction.
module _ (goes : EdgeIdx → NodeIdx → NodeIdx → Type 0) where
  pub data Chain (pred : NodeIdx → Option (Option EdgeIdx)) (cost : NodeIdx → ℕ) (root : NodeIdx)
      : NodeIdx → Type 0 where
    at_root : {v : NodeIdx} → v ≡ root → pred v ≡ some none → Chain pred cost root v
    over :
        {v : NodeIdx} {u : NodeIdx} {e : EdgeIdx}
        → pred v ≡ some (some e)
        → goes e u v
        → cost u ≤ cost v
        → Chain pred cost root u
        → Chain pred cost root v

  -- The edges of a chain from `v` on, the last of which leaves the root.
  abbrev pub BackWalk : NodeIdx → List EdgeIdx → NodeIdx → Type 0
  BackWalk v [] root = v ≡ root
  BackWalk v (e ∷ es) root = (u : NodeIdx) × goes e u v × BackWalk u es root

  module _ {pred pred' : NodeIdx → Option (Option EdgeIdx)} {cost cost' : NodeIdx → ℕ}
      {v u : NodeIdx} (e : EdgeIdx) (new_pred : pred' v ≡ some (some e)) (leads : goes e u v)
      (less : cost' v < cost v) (above : cost u ≤ cost' v)
      (same_pred : (x : NodeIdx) → x ≢ v → pred' x ≡ pred x)
      (same_cost : (x : NodeIdx) → x ≢ v → cost' x ≡ cost x) where
    -- A chain at lower costs than `v` does not run over `v`.
    Chain-below :
        {root : NodeIdx} {x : NodeIdx}
        → Chain pred cost root x
        → cost x ≤ cost u
        → Chain pred' cost' root x
    Chain-below (at_root {v = x} e₁ p) h =
        let apart : x ≢ v = λ q. omega (arith, ap cost q, less, above) in
        at_root e₁ (same_pred x apart ∙ p)
    Chain-below (over {v = x} {u = y} {e = e₁} p g le c) h =
        let apart : x ≢ v = λ q. omega (arith, ap cost q, less, above) in
        let apart' : y ≢ v = λ q. omega (arith, ap cost q, less, above) in
        over (same_pred x apart ∙ p) g (omega (arith, same_cost x apart, same_cost y apart'))
          (Chain-below c (omega arith))

    cost-le : (x : NodeIdx) → cost' x ≤ cost x
    cost-le x = elim (ℕ_discrete x v) [
      | yes q ↦ omega (arith, ap cost q, ap cost' q)
      | no n ↦ omega (arith, same_cost x n)
    ]

    -- The node itself has a chain over its new predecessor.
    pub Chain-new : {root : NodeIdx} → Chain pred cost root u → Chain pred' cost' root v
    Chain-new c = over new_pred leads (omega (arith, cost-le u)) (Chain-below c (omega arith))

    -- Every chain is kept, whether it runs over `v` or not.
    pub Chain-kept :
        {root : NodeIdx} {x : NodeIdx}
        → Chain pred cost root u
        → Chain pred cost root x
        → Chain pred' cost' root x
    Chain-kept {root} c (at_root {v = x} e₁ p) = elim (ℕ_discrete x v) [
      | yes q ↦ subst (Chain pred' cost' root) (sym q) (Chain-new c)
      | no n ↦ at_root e₁ (same_pred x n ∙ p)
    ]
    Chain-kept {root} c (over {v = x} {u = y} {e = e₁} p g le k) =
        let ih = Chain-kept c k in
        elim (ℕ_discrete x v) [
          | yes q ↦ subst (Chain pred' cost' root) (sym q) (Chain-new c)
          | no n ↦ over (same_pred x n ∙ p) g (omega (arith, same_cost x n, cost-le y)) ih
        ]
