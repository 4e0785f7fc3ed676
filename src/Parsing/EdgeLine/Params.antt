-- ===== src/Parsing/EdgeLine/Params.antt =====
-- The columns of an edge, one by one: what is written for a value is parsed as this value.
use osmgraphing.Prelude.{
  ℕ, ◌+◌, ◌≡◌, ◌≤◌, refl, ap, false, Option, none, some, arith, Bool-cases, inl, inr,
}
use osmgraphing.Prelude.Int.{ℤ}
use osmgraphing.Rust.Outcome.{ok}
use osmgraphing.Rust.Numerals.{max_usize, display_usize, display_i64, parse_usize}
use osmgraphing.Rust.Numerals.RoundTrip.{IsI64, parse_usize-display, parse_i64-display}
use osmgraphing.Network.Graph.{EdgeIdx}
use osmgraphing.Network.Street.Text.{text_eq}
use osmgraphing.Configs.Edges.Ids.{text_eq_iff}
use osmgraphing.Parsing.EdgeLine.{
  no_shortcut_idx, parse_edge_id, parse_sc_edge, parse_src_id, parse_dst_id,
}
use osmgraphing.Writing.EdgeLine.{first_half, second_half}
use osmgraphing.Writing.EdgeLine.Columns.{id_text}

-- A value that is set can be parsed no more, and one that is not at most once.
abbrev pub AtMostOnce : {A : Type 0} → Option A → ℕ → Type 0
AtMostOnce none n = n ≤ 1
AtMostOnce (some a) n = n ≡ 0

pub parse_src_id-display :
    (id : ℤ) (o : Option ℤ) (n : ℕ)
    → IsI64 id
    → AtMostOnce o (1 + n)
    → parse_src_id (display_i64 id) o ≡ ok (some id)
unfolding parse_src_id
parse_src_id-display id none n fits once = rw (parse_i64-display id fits) refl
parse_src_id-display id (some x) n fits once = absurd (omega arith)

pub parse_dst_id-display :
    (id : ℤ) (o : Option ℤ) (n : ℕ)
    → IsI64 id
    → AtMostOnce o (1 + n)
    → parse_dst_id (display_i64 id) o ≡ ok (some id)
unfolding parse_dst_id
parse_dst_id-display id none n fits once = rw (parse_i64-display id fits) refl
parse_dst_id-display id (some x) n fits once = absurd (omega arith)

-- The text of a number is not the one for no shortcut-index, which is no number.
display_ne : (n : ℕ) → n ≤ max_usize → text_eq (display_usize n) no_shortcut_idx ≡ false
unfolding parse_usize
display_ne n fits = elim (Bool-cases (text_eq (display_usize n) no_shortcut_idx)) [
  | inl e ↦ absurd (
      let same : display_usize n ≡ no_shortcut_idx =
        (text_eq_iff (display_usize n) no_shortcut_idx).0 e in
      let no_number : parse_usize no_shortcut_idx ≡ none = refl in
      let number = parse_usize-display n fits in let q = ap parse_usize same in cc)
  | inr e ↦ e
]

parse_sc_edge-display :
    (i n : ℕ) (o : Option ℕ) (k : ℕ)
    → n ≤ max_usize
    → AtMostOnce o (1 + k)
    → parse_sc_edge i (display_usize n) o ≡ ok (some n)
unfolding parse_sc_edge
parse_sc_edge-display i n none k fits once =
    rw (display_ne n fits) (rw (parse_usize-display n fits) refl)
parse_sc_edge-display i n (some x) k fits once = absurd (omega arith)

-- What a column of shortcut-indices sets.
abbrev pub half_or :
    (EdgeIdx × EdgeIdx → EdgeIdx) → Option (EdgeIdx × EdgeIdx) → Option ℕ → Option ℕ
half_or half none o = o
half_or half (some p) o = some (half p)

abbrev pub HalvesFit : Option (EdgeIdx × EdgeIdx) → Type 0
HalvesFit none = Unit
HalvesFit (some p) = (p.0 ≤ max_usize) × (p.1 ≤ max_usize)

pub parse_sc_edge-first_half :
    (i : ℕ) (sc_edges : Option (EdgeIdx × EdgeIdx)) (o : Option ℕ) (k : ℕ)
    → HalvesFit sc_edges
    → AtMostOnce o (1 + k)
    → parse_sc_edge i (first_half sc_edges) o ≡ ok (half_or (λ p. p.0) sc_edges o)
unfolding parse_sc_edge first_half
parse_sc_edge-first_half i none o k fits once = refl
parse_sc_edge-first_half i (some (a, b)) o k fits once = parse_sc_edge-display i a o k fits.0 once

pub parse_sc_edge-second_half :
    (i : ℕ) (sc_edges : Option (EdgeIdx × EdgeIdx)) (o : Option ℕ) (k : ℕ)
    → HalvesFit sc_edges
    → AtMostOnce o (1 + k)
    → parse_sc_edge i (second_half sc_edges) o ≡ ok (half_or (λ p. p.1) sc_edges o)
unfolding parse_sc_edge second_half
parse_sc_edge-second_half i none o k fits once = refl
parse_sc_edge-second_half i (some (a, b)) o k fits once = parse_sc_edge-display i b o k fits.1 once

abbrev pub IdFits : Option ℕ → Type 0
IdFits none = Unit
IdFits (some n) = n ≤ max_usize

pub parse_edge_id-id_text :
    (i : ℕ) (o : Option ℕ) (n : ℕ) → IdFits o → o ≡ some n → parse_edge_id i (id_text o) ≡ ok n
unfolding parse_edge_id
parse_edge_id-id_text i none n fits e = absurd (cc)
parse_edge_id-id_text i (some m) n fits e =
    rw (parse_usize-display m fits, parse_edge_id) (let same : m ≡ n = cc in ap ok same)
