-- ===== src/Parsing/EdgeLine/Panics.antt =====
-- An edge-id of one character that is no digit.
use osmgraphing.Prelude.{
  ℕ, ◌≡◌, ◌<◌, ◌⊎◌, inl, inr, refl, none, List, [], ◌∷◌, true, false, arith, leb, ltb, ◌==◌,
  Bool-cases, ◌&&◌,
}
use osmgraphing.Rust.Outcome.{panic}
use osmgraphing.Rust.Words.{split_whitespace}
use osmgraphing.Rust.Numerals.{parse_usize}
use osmgraphing.Rust.Float.{FloatText}
use osmgraphing.Network.Street.Text.{Text}
use osmgraphing.Configs.Metrics.{SimpleId}
use osmgraphing.Configs.Edges
use osmgraphing.Parsing.EdgeLine.{parse_edge_id, try_from_str}

parse_usize-no_digit : (c : ℕ) → (c < b'0') ⊎ (b'9' < c) → parse_usize (c ∷ []) ≡ none
unfolding parse_usize
parse_usize-no_digit c h = elim (Bool-cases (c == b'+')) [
  | inl e ↦ rw e refl
  | inr e ↦
      rw e (let no_digit : (leb b'0' c && leb c b'9') ≡ false = ground arith in rw no_digit refl)
]

module _ {F : Type 0} ⦃t : FloatText F⦄ where
  -- If the first category is the edge's id and the first word of the line is a single ASCII
  -- character that is no digit, then `try_from_str` panics, whatever the other words and
  -- categories are.
  pub try_from_str-short_id :
      (line : Text) (c : ℕ) (words : List Text) (id : SimpleId) (categories : List Edges.Category)
      → split_whitespace line ≡ (c ∷ []) ∷ words
      → c < 128
      → (c < b'0') ⊎ (b'9' < c)
      → try_from_str {F = F} line (Edges.Category.meta Edges.MetaInfo.edge_id id ∷ categories)
        ≡ panic
  unfolding try_from_str parse_edge_id
  try_from_str-short_id line c words id categories split ascii no_digit =
      let short : ltb c 128 ≡ true = ground arith in
      rw split (rw (parse_usize-no_digit c no_digit, parse_edge_id) (rw short refl))
