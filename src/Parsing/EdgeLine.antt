-- ===== src/Parsing/EdgeLine.antt =====
-- io/parsing/network/graph/fmi.rs, `ProtoShortcut::try_from_str`: a line of a file as an edge.
pub mod Params
pub mod Columns
pub mod Dimension
pub mod Panics
pub mod Values
pub mod RoundTrip
pub mod Held
pub mod Written
use osmgraphing.Prelude.{
  ℕ, suc, ◌+◌, Option, none, some, Bool, true, false, not, List, [], ◌∷◌, ◌++◌, length, get_elem?,
  if◌then◌else◌, ltb,
}
use osmgraphing.Prelude.Int.{ℤ}
use osmgraphing.Rust.Outcome.{
  Outcome, ok, err, panic, ok_or, ◌>>=◌, too_few_edge_params, unparsed_edge_param, src_not_i64,
  dst_not_i64, src_already_set, dst_already_set, too_many_edge_params, unsupported_category,
  no_src_id, no_dst_id,
}
use osmgraphing.Rust.Words.{split_whitespace}
use osmgraphing.Rust.Numerals.{parse_usize, parse_i64}
use osmgraphing.Rust.Float.{FloatText}
use osmgraphing.Network.Street.Text.{Text, codes, text_eq}
use osmgraphing.Network.Graph.{EdgeIdx}
use osmgraphing.Configs.Edges
use osmgraphing.Building.Protos.{ProtoShortcut}

-- defaults::parsing::NO_SHORTCUT_IDX
abbrev pub no_shortcut_idx : Text
no_shortcut_idx = codes "-1"

-- `&param[0..2]` and `&param[2..]` of a text in UTF-8, where a character has one byte below 128 and
-- two below 2048. The call panics if the text is shorter, or the cut is inside a character.
unfoldable pub split_two_bytes : Text → Outcome (Text × Text)
split_two_bytes [] = panic
split_two_bytes (c ∷ []) =
    if ltb c 128 then panic else if ltb c 2048 then ok (c ∷ [], []) else panic
split_two_bytes (c ∷ d ∷ s) =
    if ltb c 128
    then (if ltb d 128 then ok (c ∷ d ∷ [], s) else panic)
    else if ltb c 2048
    then ok (c ∷ [], d ∷ s)
    else panic

-- The arm of `EdgeId`: multi-ch-constructor uses ids like "ch123" for shortcuts.
unfoldable pub parse_edge_id : ℕ → Text → Outcome ℕ
unfolding split_two_bytes text_eq
parse_edge_id param_idx param = elim (parse_usize param) [
  | some id ↦ ok id
  | none ↦ split_two_bytes param >>= λ (front, rest).
      if text_eq front (codes "ch")
      then ok_or (parse_usize rest) (unparsed_edge_param param param_idx)
      else err (unparsed_edge_param param param_idx)
]

-- The arms of `ShortcutIdx0` and `ShortcutIdx1`, where `sc_edge` is what is set already.
unfoldable pub parse_sc_edge : ℕ → Text → Option ℕ → Outcome (Option ℕ)
unfolding text_eq
parse_sc_edge param_idx param sc_edge =
    if not (text_eq param no_shortcut_idx)
    then (ok_or (parse_usize param) (unparsed_edge_param param param_idx) >>= λ sc_edge_idx.
        elim sc_edge [
          | none ↦ ok (some sc_edge_idx)
          | some _ ↦ err (too_many_edge_params param param_idx)
        ])
    else ok sc_edge

-- The arm of `SrcId`.
unfoldable pub parse_src_id : Text → Option ℤ → Outcome (Option ℤ)
parse_src_id param none = ok_or (parse_i64 param) (src_not_i64 param) >>= λ id. ok (some id)
parse_src_id param (some _) = err (src_already_set param)

-- The arm of `DstId`.
unfoldable pub parse_dst_id : Text → Option ℤ → Outcome (Option ℤ)
parse_dst_id param none = ok_or (parse_i64 param) (dst_not_i64 param) >>= λ id. ok (some id)
parse_dst_id param (some _) = err (dst_already_set param)

-- Both shortcut-indices or none.
unfoldable pub both : Option ℕ → Option ℕ → Option (EdgeIdx × EdgeIdx)
both none sc_edge_1 = none
both (some sc_edge_0) none = none
both (some sc_edge_0) (some sc_edge_1) = some (sc_edge_0, sc_edge_1)

-- The variables of the loop.
pub record EdgeData (F : Type 0) : Type 0 where
  pub metric_values : List F
  pub edge_id : Option ℕ
  pub src_id : Option ℤ
  pub dst_id : Option ℤ
  pub sc_edge_0 : Option ℕ
  pub sc_edge_1 : Option ℕ

abbrev pub no_edge_data : {F : Type 0} → EdgeData F
no_edge_data = record {
  metric_values = [];
  edge_id = none;
  src_id = none;
  dst_id = none;
  sc_edge_0 = none;
  sc_edge_1 = none;
}

module _ {F : Type 0} where
  unfoldable pub read_edge_meta : Edges.MetaInfo → ℕ → Text → EdgeData F → Outcome (EdgeData F)
  unfolding parse_edge_id parse_sc_edge parse_src_id parse_dst_id
  read_edge_meta Edges.MetaInfo.edge_id param_idx param r =
      parse_edge_id param_idx param >>= λ id. ok (record r { edge_id = some id })
  read_edge_meta Edges.MetaInfo.src_id param_idx param r =
      parse_src_id param r.src_id >>= λ id. ok (record r { src_id = id })
  read_edge_meta Edges.MetaInfo.dst_id param_idx param r =
      parse_dst_id param r.dst_id >>= λ id. ok (record r { dst_id = id })
  read_edge_meta Edges.MetaInfo.shortcut_idx_0 param_idx param r =
      parse_sc_edge param_idx param r.sc_edge_0 >>= λ sc. ok (record r { sc_edge_0 = sc })
  read_edge_meta Edges.MetaInfo.shortcut_idx_1 param_idx param r =
      parse_sc_edge param_idx param r.sc_edge_1 >>= λ sc. ok (record r { sc_edge_1 = sc })
  read_edge_meta Edges.MetaInfo.src_idx param_idx param r = err unsupported_category
  read_edge_meta Edges.MetaInfo.src_lat param_idx param r = err unsupported_category
  read_edge_meta Edges.MetaInfo.src_lon param_idx param r = err unsupported_category
  read_edge_meta Edges.MetaInfo.dst_idx param_idx param r = err unsupported_category
  read_edge_meta Edges.MetaInfo.dst_lat param_idx param r = err unsupported_category
  read_edge_meta Edges.MetaInfo.dst_lon param_idx param r = err unsupported_category

  unfoldable pub proto_shortcut : EdgeData F → Outcome (ProtoShortcut F)
  unfolding both
  proto_shortcut r = ok_or r.src_id no_src_id >>= λ src_id. ok_or r.dst_id no_dst_id >>= λ dst_id.
      ok (record {
        proto_edge = record {
          id = r.edge_id;
          src_id = src_id;
          dst_id = dst_id;
          metrics = r.metric_values;
        };
        sc_edges = both r.sc_edge_0 r.sc_edge_1;
      })

module _ {F : Type 0} ⦃t : FloatText F⦄ where
  -- The body of the loop.
  unfoldable pub read_edge_param : Edges.Category → ℕ → Text → EdgeData F → Outcome (EdgeData F)
  unfolding read_edge_meta
  read_edge_param (Edges.Category.meta info id) param_idx param r =
      read_edge_meta info param_idx param r
  read_edge_param (Edges.Category.metric unit id) param_idx param r =
      ok_or (t.parse_f64 param) (unparsed_edge_param param param_idx) >>= λ raw_value.
      ok (record r { metric_values = r.metric_values ++ raw_value ∷ [] })
  read_edge_param Edges.Category.ignored param_idx param r = ok r

  -- The loop over the categories from the one at `param_idx`.
  unfoldable pub read_edge_params :
      List Text → ℕ → List Edges.Category → EdgeData F → Outcome (EdgeData F)
  unfolding read_edge_param
  read_edge_params params param_idx [] r = ok r
  read_edge_params params param_idx (category ∷ categories) r =
      ok_or (get_elem? params param_idx) (too_few_edge_params param_idx (length params))
      >>= λ param. read_edge_param category param_idx param r >>= λ r'.
          read_edge_params params (suc param_idx) categories r'

  unfoldable pub try_from_str : Text → List Edges.Category → Outcome (ProtoShortcut F)
  unfolding read_edge_params proto_shortcut split_whitespace
  try_from_str line categories =
      read_edge_params (split_whitespace line) 0 categories no_edge_data >>= proto_shortcut
