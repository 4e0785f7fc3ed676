-- ===== src/Parsing/Lines/Counts.antt =====
-- The lines that are counted, and the ranges behind the three counts.
use osmgraphing.Prelude.{
  ℕ, ◌+◌, ◌≡◌, ◌≤◌, refl, ap, ◌∙◌, true, false, Bool, List, [], ◌∷◌, ◌++◌, All, arith, ltb,
}
use osmgraphing.Rust.Outcome.{ok}
use osmgraphing.Rust.Words.{IsPlain, join, split_whitespace, split_whitespace-join}
use osmgraphing.Rust.Numerals.{display_usize, max_usize}
use osmgraphing.Rust.Numerals.RoundTrip.{parse_usize-display, display_usize-IsWord}
use osmgraphing.Network.Street.Text.{Text}
use osmgraphing.Parsing.Lines.{
  is_line_functional, functional_lines, push_count, count_lines, ranges,
}

abbrev pub IsFunctional : Text → Type 0
IsFunctional line = is_line_functional line ≡ true

pub IsFunctional-join :
    (word : Text) (words : List Text) → IsPlain word → IsFunctional (join (word ∷ words))
unfolding is_line_functional
IsFunctional-join [] words h = absurd h
IsFunctional-join (c ∷ word) [] h = rw h refl
IsFunctional-join (c ∷ word) (next ∷ words) h = rw h refl

pub functional_lines-all :
    (lines : List Text) → All IsFunctional lines → functional_lines lines ≡ lines
unfolding functional_lines
functional_lines-all [] h = refl
functional_lines-all (line ∷ lines) h = rw (h.0) (ap (◌∷◌ line) (functional_lines-all lines h.1))

count_lines-count :
    (n : ℕ) (lines : List Text) (line_number : ℕ) (is_taking_counts : Bool) (counts : List ℕ)
    → n ≤ max_usize
    → count_lines (display_usize n ∷ lines) line_number is_taking_counts counts
      ≡ count_lines lines (line_number + 1) true (counts ++ n ∷ [])
unfolding count_lines push_count
count_lines-count n lines line_number is_taking_counts counts h =
    let single : split_whitespace (display_usize n) ≡ display_usize n ∷ [] =
      split_whitespace-join (display_usize n ∷ []) (display_usize-IsWord n, tt) in
    rw (single, count_lines) (rw (parse_usize-display n h, push_count) refl)

-- The first line, if there is one, has more than one word.
abbrev pub HasColumns : List Text → Type 0
HasColumns [] = Unit
HasColumns (line ∷ lines) =
    (a b : Text) × (words : List Text) × (split_whitespace line ≡ a ∷ b ∷ words)

count_lines-columns :
    (lines : List Text) (line_number : ℕ) (counts : List ℕ)
    → HasColumns lines
    → count_lines lines line_number true counts ≡ (line_number, counts)
unfolding count_lines
count_lines-columns [] line_number counts h = refl
count_lines-columns (line ∷ lines) line_number counts (a, b, words, e) = rw (e, count_lines) refl

-- Three counts, and then lines with several columns.
pub ranges-count_lines :
    (dim nodes edges : ℕ) (lines : List Text)
    → dim ≤ max_usize
    → 3 + nodes + edges ≤ max_usize
    → HasColumns lines
    → ranges (
        count_lines
          (display_usize dim ∷ display_usize nodes ∷ display_usize edges ∷ lines)
          0
          false
          [])
      ≡ ok (record {
        node_lines = record { first = 3; last = 3 + nodes };
        edge_lines = record { first = 3 + nodes; last = 3 + nodes + edges };
      })
unfolding ranges
ranges-count_lines dim nodes edges lines dim_fits fits columns =
    let counted : count_lines
          (display_usize dim ∷ display_usize nodes ∷ display_usize edges ∷ lines) 0 false []
        ≡ (3, dim ∷ nodes ∷ edges ∷ []) =
      count_lines-count dim (display_usize nodes ∷ display_usize edges ∷ lines) 0 false [] dim_fits
      ∙ count_lines-count nodes (display_usize edges ∷ lines) 1 true (dim ∷ []) (omega arith)
      ∙ count_lines-count edges lines 2 true (dim ∷ nodes ∷ []) (omega arith)
      ∙ count_lines-columns lines 3 (dim ∷ nodes ∷ edges ∷ []) columns in
    let small : ltb max_usize (3 + nodes) ≡ false = ground arith in
    let all_small : ltb max_usize (3 + nodes + edges) ≡ false = ground arith in
    rw counted (rw small (rw all_small refl))
