-- ===== src/Building/Normalize.antt =====
-- network/graph/building.rs, `finalize`: the metrics are divided by their means.
use osmgraphing.Prelude.{
  ℕ, Bool, false, ◌||◌, List, [], ◌∷◌, map, length, replicate, if◌then◌else◌, ◌==◌, some,
}
use osmgraphing.Rust.Outcome.{Outcome, ok, err, panic, ◌>>=◌, no_edges_to_normalize, zero_mean}
use osmgraphing.Rust.Float.{Float64}
use osmgraphing.Approximating.{approx_eq}
use osmgraphing.Helpers.{add}
use osmgraphing.Network.Graph.{Graph}

module _ {F : Type 0} ⦃f : Float64 F⦄ where
  -- The sums of the metrics, from zero on.
  unfoldable pub sum_metrics : List F → List (List F) → List F
  unfolding add
  sum_metrics acc [] = acc
  sum_metrics acc (metrics ∷ rest) = sum_metrics (add acc metrics) rest

  unfoldable pub means_of : ℕ → ℕ → List (List F) → List F
  unfolding sum_metrics
  means_of dim n metrics =
      map (λ sum. f.div sum (f.of_usize n)) (sum_metrics (replicate dim f.zero) metrics)

  unfoldable pub any_zero : List F → Bool
  unfolding approx_eq
  any_zero [] = false
  any_zero (mean ∷ means) = approx_eq mean f.zero || any_zero means

  -- A metric divided by its mean, corrected if it is around zero.
  unfoldable pub normalized : F → F → F
  normalized metric mean =
      let quotient = f.div metric mean in if approx_eq quotient f.zero then f.f64_abs else quotient

  -- The metrics of one edge. One without a mean is an index out of range.
  unfoldable pub normalize_edge : List F → List F → Outcome (List F)
  unfolding normalized
  normalize_edge [] means = ok []
  normalize_edge (metric ∷ metrics) [] = panic
  normalize_edge (metric ∷ metrics) (mean ∷ means) =
      normalize_edge metrics means >>= λ rest. ok (normalized metric mean ∷ rest)

  unfoldable pub normalize_all : List (List F) → List F → Outcome (List (List F))
  unfolding normalize_edge
  normalize_all [] means = ok []
  normalize_all (metrics ∷ rest) means =
      normalize_edge metrics means >>= λ m. normalize_all rest means >>= λ ms. ok (m ∷ ms)

  -- Without edges or with a zero mean there is an error.
  unfoldable pub normalize_metrics : {C : Type 0} → Graph F C → Outcome (Graph F C)
  unfolding means_of any_zero normalize_all
  normalize_metrics g =
      let n = length g.fwd_dsts in
      let means = means_of g.cfg.dim n g.metrics in
      if n == 0
      then err no_edges_to_normalize
      else if any_zero means
      then err zero_mean
      else (normalize_all g.metrics means >>= λ metrics.
          ok (record g { metrics = metrics; means = some means }))

  -- The whole stage.
  unfoldable pub normalize : {C : Type 0} → Graph F C → Outcome (Graph F C)
  unfolding normalize_metrics
  normalize g = if g.cfg.are_normalized then normalize_metrics g else ok g
