-- ===== src/Writing/Row/Columns.antt =====
-- A row is its columns with a space between each two.
use osmgraphing.Prelude.{
  ℕ, ◌+◌, ◌-◌, ◌≡◌, refl, ap, true, false, Option, List, [], ◌∷◌, length, length-map, map, All,
  arith, ltb,
}
use mathlib.Core.List.{append-nil}
use osmgraphing.Rust.Outcome.{Outcome, ok}
use osmgraphing.Rust.Words.{join}
use osmgraphing.Network.Street.Text.{Text}
use osmgraphing.Configs.Metrics.{SimpleId}
use osmgraphing.Writing.Row.{write_column, write_columns, write_row}

module _ {A : Type 0} (write : SimpleId → Outcome Text) (column : A → Option SimpleId)
    (text : A → Text) where
  write_columns-join :
      (count i : ℕ) (cells : List A)
      → i + length cells ≡ count
      → All (λ a. write_column write (column a) ≡ ok (text a)) cells
      → write_columns write count i (map column cells) ≡ ok (join (map text cells))
  unfolding write_columns
  write_columns-join count i [] h written = refl
  write_columns-join count i (a ∷ []) h written =
      let last : ltb i (count - 1) ≡ false = ground arith in
      rw (written.0) (rw last (ap ok (append-nil (text a))))
  write_columns-join count i (a ∷ b ∷ cells) h written =
      let further : ltb i (count - 1) ≡ true = ground arith in
      let rest = write_columns-join count (i + 1) (b ∷ cells) (omega arith) written.1 in
      rw (written.0) (rw rest (rw further refl))

  pub write_row-join :
      (cells : List A)
      → All (λ a. write_column write (column a) ≡ ok (text a)) cells
      → write_row write (map column cells) ≡ ok (join (map text cells))
  unfolding write_row
  write_row-join cells written =
      write_columns-join (length (map column cells)) 0 cells
        (omega (arith, length-map cells column)) written
