-- ===== src/Tests/SmallGraph.antt =====
-- A graph of two nodes and two edges, its configurations, and floats as texts of strokes.
use osmgraphing.Prelude.{
  ℕ, zero, suc, ◌≡◌, ap, refl, Option, none, some, true, false, [], ◌∷◌, length, replicate,
  length-replicate, All, AllPairs, arith,
}
use osmgraphing.Prelude.Int.{pos, negsuc}
use osmgraphing.Rust.Outcome.{ok}
use osmgraphing.Rust.Float.{FloatText, RoundTrips}
use osmgraphing.Network.Geo.{Geo}
use osmgraphing.Network.Graph
use osmgraphing.Network.Graph.{Graph, Node}
use osmgraphing.Network.Street.Text.{Text, codes, is_whitespace}
use osmgraphing.Configs.Nodes
use osmgraphing.Configs.Edges
use osmgraphing.Configs.Metrics
use osmgraphing.Parsing.Config.{Config}
use osmgraphing.Writing.Config.{GraphConfig}
use osmgraphing.Building.Protos.{ProtoShortcut}
use osmgraphing.Parsing.Config.{check_config, is_node_id, is_latitude, is_longitude}
use osmgraphing.Parsing.NodeLine.RoundTrip.{Fits}
use osmgraphing.Building.Finalize.{ChunkSizes}
use osmgraphing.Rust.Vec.{range}
use osmgraphing.Parsing.EdgeLine.Written.{DescribesEdges}
use osmgraphing.Parsing.Fmi.NodeLines.{DescribesNodes}
use osmgraphing.Parsing.Fmi.EdgeLines.{IsStored}
use osmgraphing.Parsing.Fmi.RoundTrip.{IsRoundTrip}
use osmgraphing.Writing.Fmi.{written_dim}
use osmgraphing.Tests.Numbers.{numbers}

-- A number as strokes, one more than the number.
abbrev pub behind_first : Text → Option ℕ
behind_first [] = none
behind_first (c ∷ s) = some (length s)

abbrev pub strokes : FloatText ℕ
strokes = record { parse_f64 = behind_first; display_f64 = λ n. b'1' ∷ replicate n b'1' }

pub strokes_plain : (n : ℕ) → All (λ c. is_whitespace c ≡ false) (replicate n b'1')
unfolding is_whitespace
strokes_plain zero = tt
strokes_plain (suc n) = (refl, strokes_plain n)

pub strokes-RoundTrips : RoundTrips strokes
unfolding is_whitespace
strokes-RoundTrips = record {
  parse_f64-display = λ n. ap some (length-replicate n b'1');
  display_f64-IsWord = λ n. ((λ h. cc), (refl, strokes_plain n));
  display_f64-IsPlain = λ n. refl;
}

abbrev pub pairs : Geo ℕ (ℕ × ℕ)
pairs = record { coordinate = λ a b. (a, b); lat = λ c. c.0; lon = λ c. c.1 }

abbrev pub sizes : ChunkSizes
sizes = record { proto_edges_b = 2; proto_shortcuts = 2 }

abbrev pub cfg : Config ℕ
cfg = record {
  nodes = record {
    categories =
        Nodes.Category.meta Nodes.MetaInfo.node_id (codes "id")
        ∷ Nodes.Category.metric Nodes.UnitInfo.latitude (codes "lat")
        ∷ Nodes.Category.ignored
        ∷ Nodes.Category.metric Nodes.UnitInfo.longitude (codes "lon")
        ∷ Nodes.Category.meta Nodes.MetaInfo.ch_level (codes "level")
        ∷ [];
  };
  edges = record {
    categories =
        Edges.Category.meta Edges.MetaInfo.src_id (codes "src")
        ∷ Edges.Category.meta Edges.MetaInfo.dst_id (codes "dst")
        ∷ Edges.Category.metric Metrics.UnitInfo.kilometers (codes "km")
        ∷ [];
    metrics = record {
      are_normalized = false;
      units = Metrics.UnitInfo.kilometers ∷ [];
      ids = codes "km" ∷ [];
    };
  };
  generating = none;
}

abbrev pub writing_cfg : GraphConfig
writing_cfg = record {
  map_file = codes "map.fmi";
  nodes = record {
    ids =
        some (codes "id")
        ∷ some (codes "lat")
        ∷ none
        ∷ some (codes "lon")
        ∷ some (codes "level")
        ∷ [];
  };
  edges = record {
    file = codes "map.fmi";
    is_writing_shortcuts = true;
    is_writing_header = false;
    is_denormalizing = false;
    ids = some (codes "src") ∷ some (codes "dst") ∷ some (codes "km") ∷ [];
  };
}

abbrev pub graph : Graph ℕ (ℕ × ℕ)
graph = record {
  cfg = record { dim = 1; are_normalized = false };
  node_ids = negsuc 4 ∷ pos 7 ∷ [];
  node_coords = (3, 4) ∷ (1, 2) ∷ [];
  node_ch_levels = 0 ∷ 12 ∷ [];
  fwd_dsts = 1 ∷ 0 ∷ [];
  fwd_offsets = 0 ∷ 1 ∷ 2 ∷ [];
  fwd_to_fwd_map = 0 ∷ 1 ∷ [];
  bwd_dsts = 0 ∷ 1 ∷ [];
  bwd_offsets = 0 ∷ 1 ∷ 2 ∷ [];
  bwd_to_fwd_map = 1 ∷ 0 ∷ [];
  metrics = (6 ∷ []) ∷ (8 ∷ []) ∷ [];
  means = none;
  edge_ids = none ∷ some 9 ∷ [];
  edge_ids_to_idx_map = (9, 1) ∷ [];
  sc_offsets = 0 ∷ 0 ∷ 0 ∷ [];
  sc_edges = [];
}

abbrev pub node_0 : Node (ℕ × ℕ)
node_0 = record { idx = 0; id = negsuc 4; coord = (3, 4); level = 0 }

abbrev pub node_1 : Node (ℕ × ℕ)
node_1 = record { idx = 1; id = pos 7; coord = (1, 2); level = 12 }

abbrev pub edge_0 : ProtoShortcut ℕ
edge_0 = record {
  proto_edge = record { id = none; src_id = negsuc 4; dst_id = pos 7; metrics = 6 ∷ [] };
  sc_edges = none;
}

abbrev pub edge_1 : ProtoShortcut ℕ
edge_1 = record {
  proto_edge = record { id = some 9; src_id = pos 7; dst_id = negsuc 4; metrics = 8 ∷ [] };
  sc_edges = none;
}

pub nodes-made :
    (Graph.create (Graph.nodes graph) 0 ≡ ok node_0)
    × (Graph.create (Graph.nodes graph) 1 ≡ ok node_1)
unfolding Graph.create Graph.nodes
nodes-made = (refl, refl)

pub all-made :
    AllPairs
      (λ idx node. Graph.create (Graph.nodes graph) idx ≡ ok node)
      (range 0 (Graph.node_count (Graph.nodes graph)))
      (node_0 ∷ node_1 ∷ [])
unfolding Graph.nodes Graph.node_count
all-made = (nodes-made.0, (nodes-made.1, tt))

pub nodes-Fit : All Fits (node_0 ∷ node_1 ∷ [])
nodes-Fit = (
  record { id_fits = omega arith; level_fits = omega arith },
  (record { id_fits = omega arith; level_fits = omega arith }, tt),
)

pub describes_nodes : DescribesNodes cfg.nodes
unfolding is_node_id is_latitude is_longitude
describes_nodes = record {
  distinct = ground arith;
  supported = (tt, (tt, (tt, (tt, (tt, tt)))));
  has_id = refl;
  has_latitude = refl;
  has_longitude = refl;
}

pub describes_edges : DescribesEdges cfg.edges
describes_edges = record {
  distinct = ground arith;
  one_source = refl;
  one_destination = refl;
  first_once = omega arith;
  second_once = omega arith;
  metrics_in_step = refl;
}

pub edge_0-IsStored : IsStored graph cfg.edges 0 edge_0
unfolding Graph.try_id Graph.fwd_edges Graph.bwd_edges Graph.nodes Graph.node_id Graph.dst_idx
    Graph.sc_edges_at Graph.metrics_at
edge_0-IsStored = record {
  holds = record {
    holds_id = refl;
    holds_src = refl;
    holds_dst = refl;
    holds_sc_edges = refl;
    holds_metrics = refl;
  };
  fits = record { id_fits = tt; src_fits = omega arith; dst_fits = omega arith; halves_fit = tt };
  parsed = (tt, (tt, (tt, tt)));
  in_step = refl;
}

pub edge_1-IsStored : IsStored graph cfg.edges 1 edge_1
unfolding Graph.try_id Graph.fwd_edges Graph.bwd_edges Graph.nodes Graph.node_id Graph.dst_idx
    Graph.sc_edges_at Graph.metrics_at
edge_1-IsStored = record {
  holds = record {
    holds_id = refl;
    holds_src = refl;
    holds_dst = refl;
    holds_sc_edges = refl;
    holds_metrics = refl;
  };
  fits = record {
    id_fits = omega arith;
    src_fits = omega arith;
    dst_fits = omega arith;
    halves_fit = tt;
  };
  parsed = (tt, (tt, (tt, tt)));
  in_step = refl;
}

pub all-IsStored :
    AllPairs
      (IsStored graph cfg.edges)
      (range 0 (Graph.edge_count (Graph.fwd_edges graph)))
      (edge_0 ∷ edge_1 ∷ [])
unfolding Graph.fwd_edges Graph.edge_count
all-IsStored = (edge_0-IsStored, (edge_1-IsStored, tt))

pub IsRoundTrip-graph :
    IsRoundTrip ⦃f = numbers⦄ ⦃t = strokes⦄ ⦃geo = pairs⦄ 1 cfg writing_cfg graph
unfolding check_config written_dim Graph.node_count Graph.edge_count Graph.nodes Graph.fwd_edges
IsRoundTrip-graph = record {
  checked = refl;
  describes_nodes = describes_nodes;
  describes_edges = describes_edges;
  node_columns = refl;
  edge_columns = refl;
  plain = refl;
  with_shortcuts = refl;
  dim_fits = omega arith;
  counts_fit = omega arith;
}
