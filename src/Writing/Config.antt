-- ===== src/Writing/Config.antt =====
-- configs/writing/network: the columns of a written graph, where `none` is an ignored one, and
-- whether shortcuts are written and means multiplied back. The files' paths are texts.
use osmgraphing.Prelude.{Option, none, some, Bool, true, false, List, map}
use osmgraphing.Network.Street.Text.{Text}
use osmgraphing.Configs.Metrics.{SimpleId}

pub data RawCategory : Type 0 where
  of_id : SimpleId → RawCategory
  ignored : RawCategory

pub record NodesConfig : Type 0 where
  pub ids : List (Option SimpleId)

pub record RawEdges : Type 0 where
  pub file : Text
  pub is_writing_shortcuts : Option Bool
  pub is_denormalizing : Option Bool
  pub ids : List RawCategory

pub record ProtoEdges : Type 0 where
  pub file : Text
  pub is_writing_shortcuts : Option Bool
  pub is_denormalizing : Option Bool
  pub ids : List (Option SimpleId)

pub record EdgesConfig : Type 0 where
  pub file : Text
  pub is_writing_shortcuts : Bool
  pub is_writing_header : Bool
  pub is_denormalizing : Bool
  pub ids : List (Option SimpleId)

-- `raw_edges::Config` and its file
pub record RawGraph : Type 0 where
  pub map_file : Text
  pub nodes : List RawCategory
  pub is_writing_shortcuts : Option Bool
  pub is_denormalizing : Option Bool
  pub edge_ids : List RawCategory

pub record ProtoGraph : Type 0 where
  pub map_file : Text
  pub nodes : NodesConfig
  pub edges : ProtoEdges

pub record GraphConfig : Type 0 where
  pub map_file : Text
  pub nodes : NodesConfig
  pub edges : EdgesConfig

unfoldable pub id_from : RawCategory → Option SimpleId
id_from (RawCategory.of_id id) = some id
id_from RawCategory.ignored = none

unfoldable pub nodes_from : List RawCategory → NodesConfig
unfolding id_from
nodes_from raw_cfg = record { ids = map id_from raw_cfg }

unfoldable pub proto_edges_from : RawEdges → ProtoEdges
unfolding id_from
proto_edges_from raw_cfg = record {
  file = raw_cfg.file;
  is_writing_shortcuts = raw_cfg.is_writing_shortcuts;
  is_denormalizing = raw_cfg.is_denormalizing;
  ids = map id_from raw_cfg.ids;
}

-- `WrappedProtoConfig::from` of the graph's config
unfoldable pub proto_graph_from : RawGraph → ProtoGraph
unfolding nodes_from proto_edges_from
proto_graph_from raw_cfg = record {
  map_file = raw_cfg.map_file;
  nodes = nodes_from raw_cfg.nodes;
  edges = proto_edges_from (record {
    file = raw_cfg.map_file;
    is_writing_shortcuts = raw_cfg.is_writing_shortcuts;
    is_denormalizing = raw_cfg.is_denormalizing;
    ids = raw_cfg.edge_ids;
  });
}

abbrev pub unwrap_or : Option Bool → Bool → Bool
unwrap_or none default = default
unwrap_or (some b) default = b

-- defaults::parsing::IS_USING_SHORTCUTS
abbrev is_using_shortcuts : Bool
is_using_shortcuts = false

-- defaults::writing::WILL_DENORMALIZE_METRICS_BY_MEAN
abbrev will_denormalize_metrics_by_mean : Bool
will_denormalize_metrics_by_mean = false

-- defaults::writing::IS_WRITING_WITH_HEADER
abbrev is_writing_with_header : Bool
is_writing_with_header = true

unfoldable pub edges_from : ProtoEdges → EdgesConfig
edges_from proto_cfg = record {
  file = proto_cfg.file;
  is_writing_shortcuts = unwrap_or proto_cfg.is_writing_shortcuts is_using_shortcuts;
  is_writing_header = is_writing_with_header;
  is_denormalizing = unwrap_or proto_cfg.is_denormalizing will_denormalize_metrics_by_mean;
  ids = proto_cfg.ids;
}

unfoldable pub graph_from : ProtoGraph → GraphConfig
graph_from proto_cfg = record {
  map_file = proto_cfg.map_file;
  nodes = proto_cfg.nodes;
  edges = record {
    file = proto_cfg.map_file;
    is_writing_shortcuts = unwrap_or proto_cfg.edges.is_writing_shortcuts is_using_shortcuts;
    is_writing_header = false;
    is_denormalizing = unwrap_or proto_cfg.edges.is_denormalizing will_denormalize_metrics_by_mean;
    ids = proto_cfg.edges.ids;
  };
}

-- Used when writing a graph's edges.
unfoldable pub edges_of_graph : GraphConfig → EdgesConfig
edges_of_graph graph_cfg = record {
  file = graph_cfg.map_file;
  is_writing_shortcuts = graph_cfg.edges.is_writing_shortcuts;
  is_writing_header = false;
  is_denormalizing = graph_cfg.edges.is_denormalizing;
  ids = graph_cfg.edges.ids;
}
