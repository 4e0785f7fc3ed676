-- ===== src/Writing/EdgeLine.antt =====
-- io/writing/network/mod.rs, `write_edges_to_file`.
pub mod Columns
pub mod Ends
use osmgraphing.Prelude.{ℕ, Option, none, some, Bool, List, [], ◌∷◌, ◌++◌, map, if◌then◌else◌}
use osmgraphing.Rust.Outcome.{Outcome, ok, err, panic, expect, ◌>>=◌, unknown_edge_data}
use osmgraphing.Rust.Numerals.{display_usize, display_i64}
use osmgraphing.Rust.Float.{Float64, FloatText}
use osmgraphing.Rust.Vec.{index, range}
use osmgraphing.Network.Geo.{Geo}
use osmgraphing.Network.Graph.{
  EdgeIdx, Graph, nodes, metrics_of, fwd_edges, bwd_edges, node_id, node_coord, edge_count, edge_id,
  dst_idx, metrics_at, is_shortcut, sc_edges_at, mean,
}
use osmgraphing.Network.Street.Text.{Text, codes, text_eq}
use osmgraphing.Configs.Metrics
use osmgraphing.Configs.Metrics.{SimpleId}
use osmgraphing.Configs.Edges
use osmgraphing.Parsing.EdgeLine.{no_shortcut_idx}
use osmgraphing.Writing.Config.{EdgesConfig}
use osmgraphing.Writing.Row.{ignore_str, write_row}

-- `ShortcutIdx0` and `ShortcutIdx1`
unfoldable pub first_half : Option (EdgeIdx × EdgeIdx) → Text
first_half none = no_shortcut_idx
first_half (some (sc_edge_0, sc_edge_1)) = display_usize sc_edge_0

unfoldable pub second_half : Option (EdgeIdx × EdgeIdx) → Text
second_half none = no_shortcut_idx
second_half (some (sc_edge_0, sc_edge_1)) = display_usize sc_edge_1

module _ {F C : Type 0} ⦃f : Float64 F⦄ ⦃t : FloatText F⦄ ⦃geo : Geo F C⦄ where
  unfoldable pub edge_info : Graph F C → EdgeIdx → Edges.MetaInfo → Outcome Text
  unfolding first_half second_half
  edge_info graph edge_idx Edges.MetaInfo.edge_id =
      edge_id (fwd_edges graph) edge_idx >>= λ id. ok (display_usize id)
  edge_info graph edge_idx Edges.MetaInfo.src_id = dst_idx (bwd_edges graph) edge_idx >>= λ idx.
      node_id (nodes graph) idx >>= λ id. ok (display_i64 id)
  edge_info graph edge_idx Edges.MetaInfo.src_idx =
      dst_idx (bwd_edges graph) edge_idx >>= λ idx. ok (display_usize idx)
  edge_info graph edge_idx Edges.MetaInfo.src_lat = dst_idx (bwd_edges graph) edge_idx >>= λ idx.
      node_coord (nodes graph) idx >>= λ coord. ok (t.display_f64 (geo.lat coord))
  edge_info graph edge_idx Edges.MetaInfo.src_lon = dst_idx (bwd_edges graph) edge_idx >>= λ idx.
      node_coord (nodes graph) idx >>= λ coord. ok (t.display_f64 (geo.lon coord))
  edge_info graph edge_idx Edges.MetaInfo.dst_id = dst_idx (fwd_edges graph) edge_idx >>= λ idx.
      node_id (nodes graph) idx >>= λ id. ok (display_i64 id)
  edge_info graph edge_idx Edges.MetaInfo.dst_idx =
      dst_idx (fwd_edges graph) edge_idx >>= λ idx. ok (display_usize idx)
  edge_info graph edge_idx Edges.MetaInfo.dst_lat = dst_idx (bwd_edges graph) edge_idx >>= λ idx.
      node_coord (nodes graph) idx >>= λ coord. ok (t.display_f64 (geo.lat coord))
  edge_info graph edge_idx Edges.MetaInfo.dst_lon = dst_idx (bwd_edges graph) edge_idx >>= λ idx.
      node_coord (nodes graph) idx >>= λ coord. ok (t.display_f64 (geo.lon coord))
  edge_info graph edge_idx Edges.MetaInfo.shortcut_idx_0 =
      sc_edges_at (fwd_edges graph) edge_idx >>= λ sc_edges. ok (first_half sc_edges)
  edge_info graph edge_idx Edges.MetaInfo.shortcut_idx_1 =
      sc_edges_at (fwd_edges graph) edge_idx >>= λ sc_edges. ok (second_half sc_edges)

  -- The metric's value, multiplied by its mean if there is one and denormalising is wished.
  unfoldable pub edge_metric : Graph F C → EdgeIdx → List SimpleId → Bool → SimpleId → Outcome F
  edge_metric graph edge_idx metric_ids is_denormalizing metric_id =
      expect (Metrics.position metric_ids metric_id) >>= λ metric_idx.
      metrics_at (metrics_of graph) edge_idx >>= λ values. index values metric_idx >>= λ value.
      if is_denormalizing
      then (mean (metrics_of graph) metric_idx >>= λ m. elim m [
        | none ↦ ok value
        | some factor ↦ ok (f.mul value factor)
      ])
      else ok value

  -- The loop over the categories, to the first with the id.
  unfoldable pub write_edge_data :
      Graph F C → EdgeIdx → List SimpleId → Bool → List Edges.Category → SimpleId → Outcome Text
  unfolding edge_info edge_metric text_eq
  write_edge_data graph edge_idx metric_ids is_denormalizing [] next_id =
      err (unknown_edge_data next_id)
  write_edge_data graph edge_idx metric_ids is_denormalizing
        (Edges.Category.meta info id ∷ categories) next_id =
      let rest = write_edge_data graph edge_idx metric_ids is_denormalizing categories next_id in
      if text_eq id next_id then edge_info graph edge_idx info else rest
  write_edge_data graph edge_idx metric_ids is_denormalizing
        (Edges.Category.metric unit id ∷ categories) next_id =
      let rest = write_edge_data graph edge_idx metric_ids is_denormalizing categories next_id in
      if text_eq id next_id
      then (edge_metric graph edge_idx metric_ids is_denormalizing id >>= λ value.
          ok (t.display_f64 value))
      else rest
  write_edge_data graph edge_idx metric_ids is_denormalizing (Edges.Category.ignored ∷ categories)
        next_id =
      write_edge_data graph edge_idx metric_ids is_denormalizing categories next_id

  unfoldable pub write_edge_line : Edges.Config → EdgesConfig → Graph F C → EdgeIdx → Outcome Text
  unfolding write_row write_edge_data
  write_edge_line cfg writing_cfg graph edge_idx =
      write_row
        (write_edge_data graph edge_idx cfg.metrics.ids writing_cfg.is_denormalizing cfg.categories)
        writing_cfg.ids

  -- The loop over the edges.
  unfoldable pub write_edges_from :
      Edges.Config → EdgesConfig → Graph F C → List EdgeIdx → Outcome (List Text)
  unfolding write_edge_line is_shortcut
  write_edges_from cfg writing_cfg graph [] = ok []
  write_edges_from cfg writing_cfg graph (edge_idx ∷ edges) =
      let rest = write_edges_from cfg writing_cfg graph edges in
      let written = write_edge_line cfg writing_cfg graph edge_idx >>= λ line.
      rest >>= λ lines. ok (line ∷ lines) in
      if writing_cfg.is_writing_shortcuts
      then written
      else (is_shortcut (fwd_edges graph) edge_idx >>= λ shortcut.
          if shortcut then rest else written)

  unfoldable pub write_edges_to_file : Edges.Config → EdgesConfig → Graph F C → Outcome (List Text)
  unfolding write_edges_from write_row edge_count
  write_edges_to_file cfg writing_cfg graph =
      let edges = write_edges_from cfg writing_cfg graph (range 0 (edge_count (fwd_edges graph))) in
      if writing_cfg.is_writing_header
      then (write_row ok writing_cfg.ids >>= λ header. edges >>= λ lines. ok (header ∷ lines))
      else edges
