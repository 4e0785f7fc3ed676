-- ===== src/Building/Chunks.antt =====
-- network/graph/building.rs, `finalize`: the loops that work off a vector in chunks, to keep the
-- memory-usage low. The vector is reversed first, so that a chunk is cut off its end.
use mathlib.Core.List.{reverse-append, reverse-reverse}
use osmgraphing.Prelude.{
  ℕ, zero, suc, ◌-◌, ◌<◌, ◌≡◌, refl, sym, ap, ◌∙◌, false, Option, none, some, List, [], ◌∷◌, ◌++◌,
  reverse, length, take, drop, min, if◌then◌else◌, ◌==◌, arith, take-append-drop, length-take,
  length-append,
}
use osmgraphing.Rust.Outcome.{Outcome, ok, err, panic, ◌>>=◌}

module _ {A : Type 0} where
  length-reverse : (xs : List A) → length (reverse xs) ≡ length xs
  length-reverse [] = refl
  length-reverse (x ∷ xs) =
      rw (reverse-append (x ∷ []) xs)
        (omega (arith, length-append (reverse xs) (x ∷ []), length-reverse xs))

module _ {A S : Type 0} where
  -- `for x in chunk.into_iter() { .. }` with a body that can fail.
  unfoldable pub for_each : (A → S → Outcome S) → List A → S → Outcome S
  for_each step [] s = ok s
  for_each step (x ∷ xs) s = step x s >>= for_each step xs

  -- `while left.len() > 0 { .. }`: `splice` cuts off the chunk, which is reversed again.
  unfoldable pub work_off : ℕ → ℕ → (A → S → Outcome S) → List A → S → Option (Outcome S)
  unfolding for_each
  work_off zero max_chunk_size step left s = none
  work_off (suc fuel) max_chunk_size step left s =
      let start = length left - min (length left) max_chunk_size in
      let chunk = reverse (drop start left) in
      let rest : Option (Outcome S) = (elim (for_each step chunk s) [
        | ok s' ↦ work_off fuel max_chunk_size step (take start left) s'
        | err msg ↦ some (err msg)
        | panic ↦ some panic
      ]) in
      if length left == 0 then some (ok s) else rest

  -- The whole loop, with as many rounds as the vector is long and one for the last test.
  unfoldable pub in_chunks : ℕ → (A → S → Outcome S) → List A → S → Option (Outcome S)
  unfolding work_off
  in_chunks max_chunk_size step xs s = work_off (suc (length xs)) max_chunk_size step (reverse xs) s

  for_each-append :
      (step : A → S → Outcome S) (xs ys : List A) (s : S)
      → for_each step (xs ++ ys) s ≡ (for_each step xs s >>= for_each step ys)
  unfolding for_each
  for_each-append step [] ys s = refl
  for_each-append step (x ∷ xs) ys s =
      elim (step x s)
        as (λ o.
          (o >>= for_each step (xs ++ ys)) ≡ ((o >>= for_each step xs) >>= for_each step ys)) [
            | ok s' ↦ for_each-append step xs ys s'
            | err msg ↦ refl
            | panic ↦ refl
          ]

  work_off_lem :
      (fuel size : ℕ) (step : A → S → Outcome S) (left : List A) (s : S)
      → 0 < size
      → length left < fuel
      → work_off fuel size step left s ≡ some (for_each step (reverse left) s)
  unfolding work_off
  work_off_lem zero size step left s positive enough = absurd (omega arith)
  work_off_lem (suc fuel) size step [] s positive enough = unfold for_each in refl
  work_off_lem (suc fuel) size step (x ∷ xs) s positive enough =
      let n = suc (length xs) in
      let start = n - min n size in
      let nonempty : (n == 0) ≡ false = ground arith in
      let cut : reverse (x ∷ xs) ≡ reverse (drop start (x ∷ xs)) ++ reverse (take start (x ∷ xs)) =
        ap reverse (sym (take-append-drop start (x ∷ xs)))
        ∙ reverse-append (take start (x ∷ xs)) (drop start (x ∷ xs)) in
      let shorter : length (take start (x ∷ xs)) < fuel =
        omega (arith, length-take start (x ∷ xs)) in
      rw
        (
          nonempty,
          cut,
          for_each-append step (reverse (drop start (x ∷ xs))) (reverse (take start (x ∷ xs))) s,
        )
        (elim (for_each step (reverse (drop start (x ∷ xs))) s)
          as (λ o.
            (elim o [
              | ok s' ↦ work_off fuel size step (take start (x ∷ xs)) s'
              | err msg ↦ some (err msg)
              | panic ↦ some panic
            ])
            ≡ some (o >>= for_each step (reverse (take start (x ∷ xs))))) [
              | ok s' ↦ work_off_lem fuel size step (take start (x ∷ xs)) s' positive shorter
              | err msg ↦ refl
              | panic ↦ refl
            ])

  -- Whatever the positive size of a chunk, the loop that reverses a vector and cuts chunks off its
  -- end until it is empty ends, and does what one loop over the whole vector in its order does,
  -- errors and panics included.
  pub in_chunks_lem :
      (size : ℕ) (step : A → S → Outcome S) (xs : List A) (s : S)
      → 0 < size
      → in_chunks size step xs s ≡ some (for_each step xs s)
  unfolding in_chunks
  in_chunks_lem size step xs s positive =
      work_off_lem (suc (length xs)) size step (reverse xs) s positive
        (omega (arith, length-reverse xs))
      ∙ ap (λ l. some (for_each step l s)) (reverse-reverse xs)
