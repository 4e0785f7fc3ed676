-- ===== src/Parsing/Fmi/Loops.antt =====
-- The loop over the lines in a range does its step for these lines, in their order.
use osmgraphing.Prelude.{
  ℕ, ◌+◌, ◌≡◌, ◌≤◌, refl, sym, ap, ◌∙◌, true, false, List, [], ◌∷◌, ◌++◌, length, arith,
}
use mathlib.Core.Path.{fun_ext}
use mathlib.Core.List.{append-nil}
use osmgraphing.Rust.Outcome.{Outcome, ok, ◌>>=◌}
use osmgraphing.Network.Street.Text.{Text}
use osmgraphing.Parsing.Lines.{Range, in_range}
use osmgraphing.Parsing.Fmi.{each_line}

module _ {S : Type 0} (step : Text → S → Outcome S) where
  -- The step for each of the lines.
  abbrev pub each : List Text → S → Outcome S
  each [] s = ok s
  each (line ∷ lines) s = step line s >>= each lines

  module _ (r : Range) where
    each_line-front :
        (n : ℕ) (front lines : List Text) (s : S)
        → n + length front ≤ r.first
        → each_line step r n (front ++ lines) s ≡ each_line step r (n + length front) lines s
    unfolding each_line
    each_line-front n [] lines s h = let e : n + 0 ≡ n = omega arith in rw e refl
    each_line-front n (line ∷ front) lines s h =
        let before : in_range r n ≡ false = ground arith in
        let next : n + length (line ∷ front) ≡ n + 1 + length front = omega arith in
        rw before (rw next (each_line-front (n + 1) front lines s (omega arith)))

    each_line-behind :
        (n : ℕ) (lines : List Text) (s : S) → r.last ≤ n → each_line step r n lines s ≡ ok s
    unfolding each_line
    each_line-behind n [] s h = refl
    each_line-behind n (line ∷ lines) s h =
        let behind : in_range r n ≡ false = ground arith in
        rw behind (each_line-behind (n + 1) lines s (omega arith))

    each_line-range :
        (n : ℕ) (lines behind : List Text) (s : S)
        → r.first ≤ n
        → n + length lines ≡ r.last
        → each_line step r n (lines ++ behind) s ≡ each lines s
    unfolding each_line
    each_line-range n [] behind s h e = each_line-behind n behind s (omega arith)
    each_line-range n (line ∷ lines) behind s h e =
        let within : in_range r n ≡ true = ground arith in
        rw within (
          ap (λ next. step line s >>= next)
            (fun_ext (λ s'. each_line-range (n + 1) lines behind s' (omega arith) (omega arith))))

    pub each_line-each :
        (front lines behind : List Text) (s : S)
        → length front ≡ r.first
        → r.first + length lines ≡ r.last
        → each_line step r 0 (front ++ (lines ++ behind)) s ≡ each lines s
    each_line-each front lines behind s e h =
        let zero-add : 0 + length front ≡ length front = omega arith in
        each_line-front 0 front (lines ++ behind) s (omega arith)
        ∙ each_line-range (0 + length front) lines behind s (omega arith) (omega arith)

    pub each_line-last :
        (front lines : List Text) (s : S)
        → length front ≡ r.first
        → r.first + length lines ≡ r.last
        → each_line step r 0 (front ++ lines) s ≡ each lines s
    each_line-last front lines s e h =
        ap (λ ls. each_line step r 0 (front ++ ls) s) (sym (append-nil lines))
        ∙ each_line-each front lines [] s e h
