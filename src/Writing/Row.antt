-- ===== src/Writing/Row.antt =====
-- src/io/writing/network: the loop over the columns of a row, in both of its places.
pub mod Columns
pub mod Lookup
use osmgraphing.Prelude.{
  ℕ, ◌+◌, ◌-◌, Option, none, some, List, [], ◌∷◌, ◌++◌, length, if◌then◌else◌, ltb,
}
use osmgraphing.Rust.Outcome.{Outcome, ok, ◌>>=◌}
use osmgraphing.Network.Street.Text.{Text, codes}
use osmgraphing.Configs.Metrics.{SimpleId}

-- defaults::writing::IGNORE_STR
abbrev pub ignore_str : Text
ignore_str = codes "_"

unfoldable pub write_column : (SimpleId → Outcome Text) → Option SimpleId → Outcome Text
write_column write none = ok ignore_str
write_column write (some next_id) = write next_id

-- A space stands behind each column but the last of `count`.
unfoldable pub write_columns :
    (SimpleId → Outcome Text) → ℕ → ℕ → List (Option SimpleId) → Outcome Text
unfolding write_column
write_columns write count i [] = ok []
write_columns write count i (id ∷ ids) = write_column write id >>= λ text.
    write_columns write count (i + 1) ids >>= λ rest.
    ok (if ltb i (count - 1) then text ++ b' ' ∷ rest else text ++ rest)

unfoldable pub write_row : (SimpleId → Outcome Text) → List (Option SimpleId) → Outcome Text
unfolding write_columns
write_row write ids = write_columns write (length ids) 0 ids
