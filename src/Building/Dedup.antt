-- ===== src/Building/Dedup.antt =====
-- network/graph/building.rs, `finalize`: neighbouring duplicates among the sorted proto-edges are
-- removed in place, and the shortcuts' indices are corrected.
pub mod Reference
pub mod InPlace
pub mod Correction
use osmgraphing.Prelude.{
  ℕ, zero, suc, ◌+◌, ◌-◌, Bool, true, false, Option, none, some, List, [], ◌∷◌, ◌++◌, ◌&&◌, length,
  take, set, if◌then◌else◌, ◌==◌, leb,
}
use osmgraphing.Rust.Outcome.{Outcome, ok, ◌>>=◌}
use osmgraphing.Rust.Vec.{index}
use osmgraphing.Rust.Float.{Float64}
use osmgraphing.Approximating.{approx_eq_all}
use osmgraphing.Network.Graph.{EdgeIdx}
use osmgraphing.Building.Protos.{ProtoEdgeB}

abbrev pub id_eq : Option ℕ → Option ℕ → Bool
id_eq none none = true
id_eq none (some b) = false
id_eq (some a) none = false
id_eq (some a) (some b) = a == b

-- The metrics are compared pairwise, up to the first that differs.
unfoldable pub is_duplicate : {F : Type 0} ⦃f : Float64 F⦄ → ProtoEdgeB F → ProtoEdgeB F → Bool
is_duplicate e0 e1 =
    id_eq e0.id e1.id
    && ((e0.src_idx == e1.src_idx) && (e0.dst_idx == e1.dst_idx))
    && approx_eq_all e0.metrics e1.metrics

-- The variables of the loop.
pub record DedupState (E : Type 0) : Type 0 where
  pub proto_edges : List E
  pub w : ℕ
  pub removed_indices : List ℕ

module _ {E : Type 0} where
  -- `slice::swap`
  unfoldable pub swap : List E → ℕ → ℕ → Outcome (List E)
  swap xs i j = index xs i >>= λ a. index xs j >>= λ b. ok (set (set xs i b) j a)

module _ {E : Type 0} (dup : E → E → Bool) where
  -- The body of the loop for the index `r`.
  unfoldable pub dedup_step : ℕ → DedupState E → Outcome (DedupState E)
  dedup_step r s = index s.proto_edges (s.w - 1) >>= λ e0. index s.proto_edges r >>= λ e1.
      if dup e0 e1
      then ok (record s { removed_indices = s.removed_indices ++ r ∷ [] })
      else (swap s.proto_edges s.w r >>= λ edges.
          ok (record s { proto_edges = edges; w = s.w + 1 }))

  -- `rounds` values of `r` are left, from `r` on.
  unfoldable pub dedup_loop : ℕ → ℕ → DedupState E → Outcome (DedupState E)
  dedup_loop zero r s = ok s
  dedup_loop (suc rounds) r s = dedup_step r s >>= dedup_loop rounds (r + 1)

  -- `for r in 1..proto_edges.len()` and `truncate`: the edges left and the indices removed.
  unfoldable pub remove_duplicates : List E → Outcome (List E × List ℕ)
  remove_duplicates edges =
      dedup_loop (length edges - 1) 1 (record { proto_edges = edges; w = 1; removed_indices = [] })
      >>= λ s.
          ok (
            take (length s.proto_edges - length s.removed_indices) s.proto_edges,
            s.removed_indices,
          )

-- `for removed_idx in removed_indices.iter().rev()`: one entry of a shortcut.
unfoldable pub correct_index : List ℕ → EdgeIdx → EdgeIdx
correct_index [] idx = idx
correct_index (removed ∷ earlier) idx =
    let later = correct_index earlier idx in if leb removed later then later - 1 else later

-- Both entries of a shortcut.
unfoldable pub correct_shortcut : List ℕ → EdgeIdx × EdgeIdx → EdgeIdx × EdgeIdx
unfolding correct_index
correct_shortcut removed (a, b) = (correct_index removed a, correct_index removed b)
