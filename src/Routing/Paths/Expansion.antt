-- ===== src/Routing/Paths/Expansion.antt =====
-- What a path with shortcuts stands for, and that flattening computes it.
use osmgraphing.Prelude.{
  ℕ, zero, suc, ◌+◌, ◌<◌, ◌≤◌, ◌≡◌, refl, sym, ap, ◌∙◌, Option, none, some, List, [], ◌∷◌, ◌++◌,
  length, length-append, arith, ltb, false,
}
use mathlib.Core.List.{append_assoc, append-nil}
use osmgraphing.Rust.Outcome.{Outcome, ok, collect, collect-cons}
use osmgraphing.Rust.Float.{Float64}
use osmgraphing.Helpers.{add_assign}
use osmgraphing.Network.Graph.{
  EdgeIdx, EdgeAccessor, MetricAccessor, sc_edges_at, metrics_at, edge_count,
}
use osmgraphing.Routing.Paths.{descend, flatten_loop}

-- The plain edges that an edge stands for, in their order.
pub data Expands {F : Type 0} (a : EdgeAccessor F) : EdgeIdx → List EdgeIdx → Type 0 where
  plain : {e : EdgeIdx} → sc_edges_at a e ≡ ok none → Expands a e (e ∷ [])
  shortcut :
      {e first second : EdgeIdx} {xs ys : List EdgeIdx}
      → sc_edges_at a e ≡ ok (some (first, second))
      → Expands a first xs
      → Expands a second ys
      → Expands a e (xs ++ ys)

pub data ExpandsAll {F : Type 0} (a : EdgeAccessor F) : List EdgeIdx → List EdgeIdx → Type 0 where
  nil : ExpandsAll a [] []
  cons :
      {e : EdgeIdx} {es xs ys : List EdgeIdx}
      → Expands a e xs
      → ExpandsAll a es ys
      → ExpandsAll a (e ∷ es) (xs ++ ys)

pub not_ltb : {n k : ℕ} → k ≤ n → ltb n k ≡ false
not_ltb h = ground arith

module _ {F : Type 0} (a : EdgeAccessor F) where
  Expands-pos : {e : EdgeIdx} {xs : List EdgeIdx} → Expands a e xs → 1 ≤ length xs
  Expands-pos (plain h) = omega arith
  Expands-pos (shortcut {xs = xs} {ys = ys} h l r) =
      omega (arith, length-append xs ys, Expands-pos l, Expands-pos r)

  ExpandsAll-length : {es out : List EdgeIdx} → ExpandsAll a es out → length es ≤ length out
  ExpandsAll-length nil = omega arith
  ExpandsAll-length (cons {xs = xs} {ys = ys} x r) =
      omega (arith, length-append xs ys, Expands-pos x, ExpandsAll-length r)

  ExpandsAll-nil : {out : List EdgeIdx} → ExpandsAll a [] out → out ≡ []
  ExpandsAll-nil nil = refl

  ExpandsAll-cons :
      {e : EdgeIdx} {es out : List EdgeIdx}
      → ExpandsAll a (e ∷ es) out
      → (xs : List EdgeIdx) × (ys : List EdgeIdx) × Expands a e xs
        × ExpandsAll a es ys
        × (out ≡ xs ++ ys)
  ExpandsAll-cons (cons {xs = xs} {ys = ys} x r) = (xs, ys, x, r, refl)

  -- Descending from an edge finds the first plain edge, and leaves the others on the stack.
  descend_total :
      {e : EdgeIdx} {xs : List EdgeIdx}
      → Expands a e xs
      → (fuel : ℕ) (stack ys : List EdgeIdx) → ExpandsAll a stack ys
      → length xs + length ys ≤ edge_count a
      → length xs ≤ fuel
      → (first : EdgeIdx) × (stack' : List EdgeIdx) × (rest : List EdgeIdx) × (descend a fuel stack
            e
          ≡ some (ok (first, stack')))
        × ExpandsAll a stack' rest
        × (xs ++ ys ≡ first ∷ rest)
  unfolding descend
  descend_total (plain {e} h) zero stack ys all small enough = elim enough [ ]
  descend_total (plain {e} h) (suc fuel) stack ys all small enough =
      (e, stack, ys, rw (h, descend), all, refl)
  descend_total (shortcut {xs = xs} {ys = zs} h l r) zero stack ys all small enough =
      absurd (omega (arith, length-append xs zs, Expands-pos l))
  descend_total (shortcut {e = e} {first = first} {second = second} {xs = xs} {ys = zs} h l r)
        (suc fuel) stack ys all small enough =
      let size = length-append xs zs in
      let more = length-append zs ys in
      let left = Expands-pos l in
      let right = Expands-pos r in
      let (found, stack', rest, descends, all', shape) =
        descend_total l fuel (second ∷ stack) (zs ++ ys) (cons r all) (omega (arith, size, more))
          (omega (arith, size, right)) in
      let fits : ltb (edge_count a) (length (second ∷ stack)) ≡ false =
        not_ltb (omega (arith, ExpandsAll-length all, size, left, right)) in
      (found, stack', rest, rw (h, descend) (rw fits descends), all', append_assoc xs zs ys ∙ shape)

module _ {F : Type 0} ⦃f : Float64 F⦄ where
  -- The costs after the edges with the metrics `mss`.
  abbrev pub summed : List F → List (List F) → List F
  summed costs [] = costs
  summed costs (ms ∷ mss) = summed (add_assign costs ms) mss

module _ {F : Type 0} ⦃f : Float64 F⦄ (a : EdgeAccessor F) (m : MetricAccessor F) where
  abbrev result : List EdgeIdx → List F → Option (Outcome (List EdgeIdx × List F))
  result edges costs = some (ok (edges, costs))

  pub flatten_step :
      (fuel : ℕ) (e found : EdgeIdx) (stack stack' edges : List EdgeIdx) (costs ms : List F)
      → descend a (edge_count a + 2) stack e ≡ some (ok (found, stack'))
      → metrics_at m found ≡ ok ms
      → flatten_loop a m (suc fuel) (e ∷ stack) edges costs
        ≡ flatten_loop a m fuel stack' (edges ++ found ∷ []) (add_assign costs ms)
  unfolding flatten_loop
  flatten_step fuel e found stack stack' edges costs ms descends read =
      rw (descends, flatten_loop) (rw (read, flatten_loop) refl)

  -- If the edges of the stack expand to `out`, no longer than the graph has edges, and the metrics
  -- of `out` can be read, then the loop ends with more fuel than `out` is long: it has appended
  -- `out` to the edges and added the metrics to the costs in this order.
  pub flatten_loop_total :
      (fuel : ℕ) (stack out edges : List EdgeIdx) (costs : List F) (mss : List (List F))
      → ExpandsAll a stack out
      → length out ≤ edge_count a
      → collect (metrics_at m) out ≡ ok mss
      → length out < fuel
      → flatten_loop a m fuel stack edges costs ≡ some (ok (edges ++ out, summed costs mss))
  unfolding flatten_loop
  flatten_loop_total zero stack out edges costs mss all small reads enough = elim enough [ ]
  flatten_loop_total (suc fuel) [] out edges costs mss all small reads enough =
      let empty = ExpandsAll-nil a all in
      let none_read : mss ≡ [] =
        (let r : collect (metrics_at m) [] ≡ ok mss = rw empty at reads in cc) in
      rw (empty, none_read, append-nil edges) refl
  flatten_loop_total (suc fuel) (e ∷ stack) out edges costs mss all small reads enough =
      let (xs, ys, x, r, split) = ExpandsAll-cons a all in
      let size = ap length split ∙ length-append xs ys in
      let (found, stack', rest, descends, all', shape) =
        descend_total a x (edge_count a + 2) stack ys r (omega (arith, size))
          (omega (arith, size)) in
      let whole = split ∙ shape in
      let (ms, mss', read, reads', sums) =
        collect-cons (metrics_at m) found rest mss (rw whole at reads) in
      let ih =
        flatten_loop_total fuel stack' rest (edges ++ found ∷ []) (add_assign costs ms) mss' all'
          (omega (arith, ap length whole)) reads' (omega (arith, ap length whole)) in
      flatten_step fuel e found stack stack' edges costs ms descends read
      ∙ ih
      ∙ ap (λ l. result l (summed (add_assign costs ms) mss'))
          (append_assoc edges (found ∷ []) rest)
      ∙ ap (λ l. result (edges ++ l) (summed costs (ms ∷ mss'))) (sym whole)
      ∙ ap (λ k. result (edges ++ out) (summed costs k)) (sym sums)
