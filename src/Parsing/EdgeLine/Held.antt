-- ===== src/Parsing/EdgeLine/Held.antt =====
-- The line of an edge that a graph holds, for the lists of the configurations.
use osmgraphing.Prelude.{
  ◌≡◌, ◌≤◌, refl, false, Bool, Option, none, List, [], ◌∷◌, map, All, arith, length, if◌then◌else◌,
  ◌&&◌, In, inl,
}
use osmgraphing.Rust.Outcome.{ok, expect, ◌>>=◌, returned}
use osmgraphing.Rust.Vec.{index}
use osmgraphing.Rust.Words.{split_whitespace-join, join}
use osmgraphing.Rust.Float.{Float64, FloatText, RoundTrips}
use osmgraphing.Network.Geo.{Geo}
use osmgraphing.Network.Graph.{
  EdgeIdx, Graph, metrics_at, metrics_of, nodes, fwd_edges, bwd_edges, node_id, try_id, dst_idx,
  sc_edges_at,
}
use osmgraphing.Rust.Numerals.RoundTrip.{IsI64}
use osmgraphing.Network.Street.Text.{Text}
use osmgraphing.Configs.Metrics
use osmgraphing.Configs.Metrics.{SimpleId}
use osmgraphing.Configs.Edges
use osmgraphing.Configs.Edges.Ids.{AreDistinct}
use osmgraphing.Building.Protos.{ProtoShortcut}
use osmgraphing.Parsing.Config.{any, count_if}
use osmgraphing.Parsing.Lines.Counts.{IsFunctional, IsFunctional-join}
use osmgraphing.Parsing.EdgeLine.{no_edge_data, proto_shortcut, try_from_str}
use osmgraphing.Parsing.EdgeLine.Params.{HalvesFit, IdFits}
use osmgraphing.Parsing.EdgeLine.Columns.{
  is_edge_id, is_src_id, is_dst_id, is_first_half, is_second_half, metric_ids_of, EdgeFits, AreOnce,
  CanBeParsed,
}
use osmgraphing.Parsing.EdgeLine.Values.{
  value_by, index-position, map-value_by, any_of_count, half_or-both, In-head, In-tail,
  metric_ids_of-AreDistinct,
}
use osmgraphing.Parsing.EdgeLine.RoundTrip.{all_set, read_edge_params-texts}
use osmgraphing.Writing.Row.{write_row}
use osmgraphing.Writing.Row.Lookup.{ids_by}
use osmgraphing.Writing.EdgeLine.{write_edge_data, edge_metric}
use osmgraphing.Writing.EdgeLine.Columns.{
  column_of, EdgeValues, Holds, IsWritable, edge_text, edge_text-IsPlain, edge_texts-AreWords,
  write_edge_data-join,
}

-- What the graph holds of an edge, with the values of its metrics.
pub record HoldsEdge {F C : Type 0} (graph : Graph F C) (edge_idx : EdgeIdx)
    (edge : ProtoShortcut F) : Type 0 where
  pub holds_id : try_id (fwd_edges graph) edge_idx ≡ ok edge.proto_edge.id
  pub holds_src :
      (dst_idx (bwd_edges graph) edge_idx >>= node_id (nodes graph)) ≡ ok edge.proto_edge.src_id
  pub holds_dst :
      (dst_idx (fwd_edges graph) edge_idx >>= node_id (nodes graph)) ≡ ok edge.proto_edge.dst_id
  pub holds_sc_edges : sc_edges_at (fwd_edges graph) edge_idx ≡ ok edge.sc_edges
  pub holds_metrics : metrics_at (metrics_of graph) edge_idx ≡ ok edge.proto_edge.metrics

-- What an edge holds fits into the program's numbers.
pub record ShortcutFits {F : Type 0} (edge : ProtoShortcut F) : Type 0 where
  pub id_fits : IdFits edge.proto_edge.id
  pub src_fits : IsI64 edge.proto_edge.src_id
  pub dst_fits : IsI64 edge.proto_edge.dst_id
  pub halves_fit : HalvesFit edge.sc_edges

-- The metrics' values by their ids.
abbrev pub values_by : {F : Type 0} ⦃f : Float64 F⦄ → List SimpleId → ProtoShortcut F → EdgeValues F
values_by ids edge = record {
  id = edge.proto_edge.id;
  src_id = edge.proto_edge.src_id;
  dst_id = edge.proto_edge.dst_id;
  sc_edges = edge.sc_edges;
  value = value_by ids edge.proto_edge.metrics;
}

-- What the columns of the categories keep of an edge.
abbrev pub kept : {F : Type 0} → List Edges.Category → ProtoShortcut F → ProtoShortcut F
kept cs edge = record {
  proto_edge = record edge.proto_edge {
    id = if any is_edge_id cs then edge.proto_edge.id else none;
  };
  sc_edges = if any is_first_half cs && any is_second_half cs then edge.sc_edges else none;
}

module _ {F C : Type 0} ⦃f : Float64 F⦄ ⦃t : FloatText F⦄ ⦃geo : Geo F C⦄ where
  module _ (graph : Graph F C) (edge_idx : EdgeIdx) (edge : ProtoShortcut F)
      (ids : List SimpleId) where
    module _ (holds : HoldsEdge graph edge_idx edge)
        (in_step : length edge.proto_edge.metrics ≡ length ids) where
      edge_metric-value_by :
          (id : SimpleId)
          → In id ids
          → edge_metric graph edge_idx ids false id ≡ ok (value_by ids edge.proto_edge.metrics id)
      unfolding edge_metric
      edge_metric-value_by id m =
          let metrics = edge.proto_edge.metrics in
          let (k, at_k, e) =
            returned (value_by ids metrics id) (expect (Metrics.position ids id)) (index metrics)
              (index-position ids metrics id m in_step) in
          rw e (rw holds.holds_metrics (rw at_k refl))

      CanBeParsed-IsWritable :
          (c : Edges.Category)
          → ((id : SimpleId) → In id (metric_ids_of (c ∷ [])) → In id ids)
          → CanBeParsed edge.proto_edge.id c
          → IsWritable graph edge_idx ids false (values_by ids edge) c
      CanBeParsed-IsWritable (Edges.Category.meta Edges.MetaInfo.edge_id id) among s = s
      CanBeParsed-IsWritable (Edges.Category.meta Edges.MetaInfo.src_id id) among s = s
      CanBeParsed-IsWritable (Edges.Category.meta Edges.MetaInfo.dst_id id) among s = s
      CanBeParsed-IsWritable (Edges.Category.meta Edges.MetaInfo.shortcut_idx_0 id) among s = s
      CanBeParsed-IsWritable (Edges.Category.meta Edges.MetaInfo.shortcut_idx_1 id) among s = s
      CanBeParsed-IsWritable (Edges.Category.meta _ id) among s = s
      CanBeParsed-IsWritable (Edges.Category.metric unit id) among s =
          edge_metric-value_by id (among id (inl refl))
      CanBeParsed-IsWritable Edges.Category.ignored among s = s

      all-IsWritable :
          (cs : List Edges.Category)
          → ((id : SimpleId) → In id (metric_ids_of cs) → In id ids)
          → All (CanBeParsed edge.proto_edge.id) cs
          → All (IsWritable graph edge_idx ids false (values_by ids edge)) cs
      all-IsWritable [] among s = tt
      all-IsWritable (c ∷ cs) among s = (
        CanBeParsed-IsWritable c (λ id m. among id (In-head c cs id m)) s.0,
        all-IsWritable cs (λ id m. among id (In-tail c cs id m)) s.1,
      )

  -- The line and the parsed edge, for the lists of the configurations.
  module _ (texts : RoundTrips t) (graph : Graph F C) (edge_idx : EdgeIdx) (edge : ProtoShortcut F)
      (holds : HoldsEdge graph edge_idx edge) (fits : ShortcutFits edge) (ids : List SimpleId)
      (in_step : length edge.proto_edge.metrics ≡ length ids) (cs : List Edges.Category)
      (same : ids ≡ metric_ids_of cs) (distinct : AreDistinct (ids_by column_of cs))
      (parsed : All (CanBeParsed edge.proto_edge.id) cs) where
    abbrev pub values : EdgeValues F
    values = values_by ids edge

    abbrev pub line : Text
    line = join (map (edge_text values) cs)

    pub writable : All (IsWritable graph edge_idx ids false values) cs
    writable = all-IsWritable graph edge_idx edge ids holds in_step cs (λ id m. rw same m) parsed

    edge-Holds : Holds graph edge_idx values
    edge-Holds = record {
      holds_id = holds.holds_id;
      holds_src = holds.holds_src;
      holds_dst = holds.holds_dst;
      holds_sc_edges = holds.holds_sc_edges;
    }

    columns-IsFunctional :
        (cs : List Edges.Category)
        → All (IsWritable graph edge_idx ids false values) cs
        → count_if is_src_id cs ≡ 1
        → IsFunctional (join (map (edge_text values) cs))
    columns-IsFunctional [] w src = absurd (omega arith)
    columns-IsFunctional (c ∷ cs) w src =
        IsFunctional-join (edge_text values c) (map (edge_text values) cs)
          (edge_text-IsPlain graph edge_idx ids false values texts c w.0)

    pub written :
        (columns : List (Option SimpleId)) (is_denormalizing : Bool)
        → columns ≡ map column_of cs
        → is_denormalizing ≡ false
        → write_row (write_edge_data graph edge_idx ids is_denormalizing cs) columns ≡ ok line
    written columns is_denormalizing e plain =
        rw (e, plain)
          (write_edge_data-join graph edge_idx ids false values edge-Holds cs distinct writable)

    pub line-IsFunctional : count_if is_src_id cs ≡ 1 → IsFunctional line
    line-IsFunctional src = columns-IsFunctional cs writable src

    values-kept :
        count_if is_src_id cs ≡ 1
        → count_if is_dst_id cs ≡ 1
        → proto_shortcut (all_set values cs no_edge_data) ≡ ok (kept cs edge)
    unfolding proto_shortcut
    values-kept src dst =
        let metrics : map values.value (metric_ids_of cs) ≡ edge.proto_edge.metrics = rw (← same) (
          map-value_by ids edge.proto_edge.metrics (rw same (metric_ids_of-AreDistinct cs distinct))
            in_step) in
        rw
          (
            any_of_count is_src_id cs src,
            any_of_count is_dst_id cs dst,
            metrics,
            half_or-both edge.sc_edges (any is_first_half cs) (any is_second_half cs),
          )
          refl

    pub parsed_back :
        count_if is_src_id cs ≡ 1
        → count_if is_dst_id cs ≡ 1
        → count_if is_first_half cs ≤ 1
        → count_if is_second_half cs ≤ 1
        → try_from_str line cs ≡ ok (kept cs edge)
    unfolding try_from_str
    parsed_back src dst first second =
        let once : AreOnce {F = F} no_edge_data cs = record {
          src_once = omega arith;
          dst_once = omega arith;
          first_once = first;
          second_once = second;
        } in
        let values_fit : EdgeFits values = record {
          id_fits = fits.id_fits;
          src_fits = fits.src_fits;
          dst_fits = fits.dst_fits;
          halves_fit = fits.halves_fit;
        } in
        rw
          (split_whitespace-join (map (edge_text values) cs)
            (edge_texts-AreWords graph edge_idx ids false values texts cs writable))
          (rw (read_edge_params-texts values texts values_fit [] cs no_edge_data parsed once)
            (values-kept src dst))
