-- ===== src/Parsing/EdgeLine/Columns.antt =====
-- The columns of an edge: which of its values they hold, and which can be parsed once only.
use osmgraphing.Prelude.{ℕ, ◌+◌, ◌≡◌, true, false, Bool, Option, none, some, List, [], ◌∷◌, arith}
use osmgraphing.Rust.Numerals.RoundTrip.{IsI64}
use osmgraphing.Network.Graph.{EdgeIdx}
use osmgraphing.Configs.Metrics.{SimpleId}
use osmgraphing.Configs.Edges
use osmgraphing.Parsing.Config.{count_if}
use osmgraphing.Parsing.EdgeLine.{EdgeData}
use osmgraphing.Parsing.EdgeLine.Params.{AtMostOnce, half_or, HalvesFit, IdFits}
use osmgraphing.Writing.EdgeLine.Columns.{EdgeValues}

abbrev pub is_edge_id : Edges.Category → Bool
is_edge_id (Edges.Category.meta Edges.MetaInfo.edge_id id) = true
is_edge_id _ = false

abbrev pub is_src_id : Edges.Category → Bool
is_src_id (Edges.Category.meta Edges.MetaInfo.src_id id) = true
is_src_id _ = false

abbrev pub is_dst_id : Edges.Category → Bool
is_dst_id (Edges.Category.meta Edges.MetaInfo.dst_id id) = true
is_dst_id _ = false

abbrev pub is_first_half : Edges.Category → Bool
is_first_half (Edges.Category.meta Edges.MetaInfo.shortcut_idx_0 id) = true
is_first_half _ = false

abbrev pub is_second_half : Edges.Category → Bool
is_second_half (Edges.Category.meta Edges.MetaInfo.shortcut_idx_1 id) = true
is_second_half _ = false

-- The ids of the metrics, in the order of their columns.
abbrev pub metric_ids_of : List Edges.Category → List SimpleId
metric_ids_of [] = []
metric_ids_of (Edges.Category.meta info id ∷ cs) = metric_ids_of cs
metric_ids_of (Edges.Category.metric unit id ∷ cs) = id ∷ metric_ids_of cs
metric_ids_of (Edges.Category.ignored ∷ cs) = metric_ids_of cs

-- What an edge holds fits into the program's numbers.
pub record EdgeFits {F : Type 0} (d : EdgeValues F) : Type 0 where
  pub id_fits : IdFits d.id
  pub src_fits : IsI64 d.src_id
  pub dst_fits : IsI64 d.dst_id
  pub halves_fit : HalvesFit d.sc_edges

-- The columns that are to be parsed set what can be set once only.
pub record AreOnce {F : Type 0} (r : EdgeData F) (cs : List Edges.Category) : Type 0 where
  pub src_once : AtMostOnce r.src_id (count_if is_src_id cs)
  pub dst_once : AtMostOnce r.dst_id (count_if is_dst_id cs)
  pub first_once : AtMostOnce r.sc_edge_0 (count_if is_first_half cs)
  pub second_once : AtMostOnce r.sc_edge_1 (count_if is_second_half cs)

-- What can be written and parsed of an edge: its id only if it has one, and neither the indices nor
-- the coordinates of its ends.
abbrev pub CanBeParsed : Option ℕ → Edges.Category → Type 0
CanBeParsed edge_id (Edges.Category.meta Edges.MetaInfo.edge_id id) = (n : ℕ) × (edge_id ≡ some n)
CanBeParsed edge_id (Edges.Category.meta Edges.MetaInfo.src_id id) = Unit
CanBeParsed edge_id (Edges.Category.meta Edges.MetaInfo.dst_id id) = Unit
CanBeParsed edge_id (Edges.Category.meta Edges.MetaInfo.shortcut_idx_0 id) = Unit
CanBeParsed edge_id (Edges.Category.meta Edges.MetaInfo.shortcut_idx_1 id) = Unit
CanBeParsed edge_id (Edges.Category.meta _ id) = ⊥
CanBeParsed edge_id (Edges.Category.metric unit id) = Unit
CanBeParsed edge_id Edges.Category.ignored = Unit

pub less_once : {A : Type 0} (o : Option A) (k n : ℕ) → AtMostOnce o (k + n) → AtMostOnce o n
less_once none k n h = omega arith
less_once (some a) k n h = omega arith

pub set_once :
    {A : Type 0} (o : Option A) (a : A) (n : ℕ) → AtMostOnce o (1 + n) → AtMostOnce (some a) n
set_once none a n h = omega arith
set_once (some x) a n h = absurd (omega arith)

pub half_or_once :
    (half : EdgeIdx × EdgeIdx → EdgeIdx) (sc_edges : Option (EdgeIdx × EdgeIdx)) (o : Option ℕ)
    (n : ℕ)
    → AtMostOnce o (1 + n)
    → AtMostOnce (half_or half sc_edges o) n
half_or_once half none o n h = less_once o 1 n h
half_or_once half (some p) o n h = set_once o (half p) n h
