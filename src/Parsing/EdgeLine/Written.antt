-- ===== src/Parsing/EdgeLine/Written.antt =====
-- A written edge is parsed as an edge with the same id, ends, metrics and shortcut-edges.
use osmgraphing.Prelude.{◌≡◌, ◌≤◌, true, false, map, All, length}
use osmgraphing.Rust.Outcome.{ok}
use osmgraphing.Rust.Float.{Float64, FloatText, RoundTrips}
use osmgraphing.Network.Geo.{Geo}
use osmgraphing.Network.Graph.{EdgeIdx, Graph}
use osmgraphing.Network.Street.Text.{Text}
use osmgraphing.Configs.Edges
use osmgraphing.Configs.Edges.Ids.{AreDistinct}
use osmgraphing.Building.Protos.{ProtoShortcut}
use osmgraphing.Parsing.Config.{count_if}
use osmgraphing.Parsing.Lines.{is_line_functional}
use osmgraphing.Parsing.EdgeLine.{try_from_str}
use osmgraphing.Parsing.EdgeLine.Columns.{
  is_src_id, is_dst_id, is_first_half, is_second_half, metric_ids_of, CanBeParsed,
}
use osmgraphing.Parsing.EdgeLine.Held.{
  HoldsEdge, ShortcutFits, kept, line, written, parsed_back, line-IsFunctional,
}
use osmgraphing.Writing.Config.{EdgesConfig}
use osmgraphing.Writing.Row.Lookup.{ids_by}
use osmgraphing.Writing.EdgeLine.{write_edge_line}
use osmgraphing.Writing.EdgeLine.Columns.{column_of}

-- A configuration by which edges can be parsed as they are written.
pub record DescribesEdges (cfg : Edges.Config) : Type 0 where
  pub distinct : AreDistinct (ids_by column_of cfg.categories)
  pub one_source : count_if is_src_id cfg.categories ≡ 1
  pub one_destination : count_if is_dst_id cfg.categories ≡ 1
  pub first_once : count_if is_first_half cfg.categories ≤ 1
  pub second_once : count_if is_second_half cfg.categories ≤ 1
  pub metrics_in_step : cfg.metrics.ids ≡ metric_ids_of cfg.categories

module _ {F C : Type 0} ⦃f : Float64 F⦄ ⦃t : FloatText F⦄ ⦃geo : Geo F C⦄ where
  -- Let the ids of the configuration's categories be distinct, exactly one category be the id of
  -- the source and one that of the destination, at most one each a first and a second shortcut-
  -- index, and the graph's metrics those of the categories. If displayed floats are words that are
  -- parsed as the same floats, the categories can be parsed, the graph holds the edge, its numbers
  -- fit into 64 bits, and it is written with the columns of the categories and not denormalised,
  -- then the line is written, is no comment, and is parsed as this edge, without its id if no
  -- category has it and without its shortcut-edges unless both have a category.
  pub try_from_str-write_edge_line :
      RoundTrips t
      → (graph : Graph F C) (edge_idx : EdgeIdx) (edge : ProtoShortcut F)
      → HoldsEdge graph edge_idx edge
      → ShortcutFits edge
      → (cfg : Edges.Config) → DescribesEdges cfg
      → All (CanBeParsed edge.proto_edge.id) cfg.categories
      → length edge.proto_edge.metrics ≡ length cfg.metrics.ids
      → (writing_cfg : EdgesConfig) → writing_cfg.ids ≡ map column_of cfg.categories
      → writing_cfg.is_denormalizing ≡ false
      → (line : Text) × (write_edge_line cfg writing_cfg graph edge_idx ≡ ok line)
        × (is_line_functional line ≡ true)
        × (try_from_str line cfg.categories ≡ ok (kept cfg.categories edge))
  unfolding write_edge_line
  try_from_str-write_edge_line texts graph edge_idx edge holds fits cfg r parsed in_step writing_cfg
        columns plain =
      let ids = cfg.metrics.ids in
      let cs = cfg.categories in
      (
        line texts graph edge_idx edge holds fits ids in_step cs r.metrics_in_step r.distinct
            parsed,
        written texts graph edge_idx edge holds fits ids in_step cs r.metrics_in_step r.distinct
            parsed writing_cfg.ids writing_cfg.is_denormalizing columns plain,
        line-IsFunctional texts graph edge_idx edge holds fits ids in_step cs r.metrics_in_step
            r.distinct parsed r.one_source,
        parsed_back texts graph edge_idx edge holds fits ids in_step cs r.metrics_in_step r.distinct
            parsed r.one_source r.one_destination r.first_once r.second_once,
      )
