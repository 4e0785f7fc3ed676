-- ===== src/Parsing/Lines.antt =====
-- io/parsing/network/graph/fmi.rs, `Parser` and `preprocess`: which lines are nodes and edges.
pub mod Counts
use osmgraphing.Prelude.{
  ℕ, ◌+◌, Option, none, some, Bool, true, false, not, List, [], ◌∷◌, ◌++◌, ◌&&◌, if◌then◌else◌, ltb,
  leb, ◌==◌, reverse,
}
use osmgraphing.Rust.Outcome.{Outcome, ok, err, panic, ◌>>=◌, too_few_counts}
use osmgraphing.Rust.Words.{split_whitespace}
use osmgraphing.Rust.Numerals.{parse_usize, max_usize}
use osmgraphing.Network.Street.Text.{Text}
use osmgraphing.Parsing.Config.{Config, check_config}

-- `Range<usize>`
pub record Range : Type 0 where
  pub first : ℕ
  pub last : ℕ

-- `Range::contains`
abbrev pub in_range : Range → ℕ → Bool
in_range r n = leb r.first n && ltb n r.last

pub record Parser : Type 0 where
  pub node_lines : Range
  pub edge_lines : Range

-- `Parser::new`
abbrev pub new_parser : Parser
new_parser = record {
  node_lines = record { first = 1; last = 0 };
  edge_lines = record { first = 1; last = 0 };
}

-- `helpers::is_line_functional`
unfoldable pub is_line_functional : Text → Bool
is_line_functional [] = false
is_line_functional (c ∷ line) = not (c == b'#')

-- `.lines()` and `.filter(..)`
unfoldable pub functional_lines : List Text → List Text
unfolding is_line_functional
functional_lines [] = []
functional_lines (line ∷ lines) =
    let rest = functional_lines lines in if is_line_functional line then line ∷ rest else rest

-- `counts.push(..)`, if the param is a count.
unfoldable pub push_count : List ℕ → Text → List ℕ
push_count counts param = elim (parse_usize param) [
  | some count ↦ counts ++ count ∷ []
  | none ↦ counts
]

-- The loop over the functional lines, with the line-number and the counts at its end.
unfoldable pub count_lines : List Text → ℕ → Bool → List ℕ → ℕ × List ℕ
unfolding push_count split_whitespace
count_lines [] line_number is_taking_counts counts = (line_number, counts)
count_lines (line ∷ lines) line_number is_taking_counts counts = elim (split_whitespace line) [
  | [] ↦
      if is_taking_counts
      then (line_number, counts)
      else count_lines lines (line_number + 1) is_taking_counts counts
  | param ∷ [] ↦ count_lines lines (line_number + 1) true (push_count counts param)
  | _ ∷ _ ∷ _ ↦
      if is_taking_counts
      then (line_number, counts)
      else count_lines lines (line_number + 1) is_taking_counts counts
]

-- A sum of two `usize`, which panics where it overflows.
abbrev pub add_usize : ℕ → ℕ → Outcome ℕ
add_usize a b = if ltb max_usize (a + b) then panic else ok (a + b)

-- What follows the loop. The last two counts are the node- and the edge-count.
unfoldable pub ranges : ℕ × List ℕ → Outcome Parser
ranges (line_number, counts) = elim (reverse counts) [
  | edge_count ∷ node_count ∷ _ ↦ add_usize line_number node_count >>= λ end_of_nodes.
      add_usize end_of_nodes edge_count >>= λ end_of_edges. ok (record {
        node_lines = record { first = line_number; last = end_of_nodes };
        edge_lines = record { first = end_of_nodes; last = end_of_edges };
      })
  | _ ↦ err too_few_counts
]

unfoldable pub preprocess : {F : Type 0} → ℕ → Config F → List Text → Outcome Parser
unfolding count_lines ranges functional_lines check_config
preprocess capacity cfg lines =
    check_config capacity cfg >>= λ _. ranges (count_lines (functional_lines lines) 0 false [])
