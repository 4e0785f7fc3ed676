-- ===== src/Building/Dedup/Reference.antt =====
-- The positions that `Vec::dedup_by`, the reference, removes. Each edge is compared with the last
-- one kept.
use osmgraphing.Prelude.{ℕ, ◌+◌, Bool, List, [], ◌∷◌, if◌then◌else◌}

module _ {E : Type 0} (dup : E → E → Bool) where
  -- The positions removed, where `r` is the position of the first edge.
  unfoldable pub removed : E → ℕ → List E → List ℕ
  removed last r [] = []
  removed last r (e ∷ es) =
      let more = removed e (r + 1) es in
      let fewer = r ∷ removed last (r + 1) es in if dup last e then fewer else more
