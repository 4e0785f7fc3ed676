-- ===== src/Building/Finalize.antt =====
-- network/graph/building.rs: `GraphBuilder::finalize`, composed of its stages, for a configuration
-- without a section on generated metrics.
pub mod Ends
pub mod Order
pub mod Unique
pub mod Keeps
pub mod Reading
pub mod Leaving
pub mod Replaced
pub mod Sorted
pub mod Corrected
pub mod Stored
pub mod Prepared
pub mod Returns
pub mod Total
pub mod Built
use osmgraphing.Prelude.{ℕ, Option, none, some, List, [], length}
use osmgraphing.Rust.Outcome.{Outcome, ok, panic, ◌>>=◌, expect}
use osmgraphing.Rust.Float.{Float64}
use osmgraphing.Network.Graph.{EdgeIdx, Graph, nodes}
use osmgraphing.Building.Protos.{ProtoEdgeA, ProtoEdgeB, ProtoEdgeC, GraphBuilder}
use osmgraphing.Building.Nodes.{new_graph, check_coordinates}
use osmgraphing.Building.Chunks.{in_chunks}
use osmgraphing.Building.Stages.{
  replace_ids, sort_forward, sort_backward, correct_shortcuts, MetricsState, store_metrics,
}
use osmgraphing.Building.Remap.{remap_shortcuts}
use osmgraphing.Building.Dedup.{is_duplicate, remove_duplicates}
use osmgraphing.Building.Checks.{check_metrics, build_edge_ids}
use osmgraphing.Building.Shortcuts.{ScState, build_shortcuts}
use osmgraphing.Building.Offsets.{Forward, Backward, build_forward, build_backward}
use osmgraphing.Building.Normalize.{normalize}

-- A loop that ran out of rounds counts as a panic.
abbrev pub finished {ℓ} : {S : Type ℓ} → Option (Outcome S) → Outcome S
finished none = panic
finished (some o) = o

-- `max_chunk_size` of the two loops, which depend on the sizes of types.
pub record ChunkSizes : Type 0 where
  pub proto_edges_b : ℕ
  pub proto_shortcuts : ℕ

module _ {F C : Type 0} where
  -- The nodes of the graph.
  unfoldable pub add_nodes : GraphBuilder F C → Outcome (Graph F C)
  unfolding check_coordinates new_graph
  add_nodes b = check_coordinates b.node_ids 0 b.node_coords >>= λ coords.
      ok (record (new_graph b.cfg) {
        node_ids = b.node_ids;
        node_coords = coords;
        node_ch_levels = b.node_ch_levels;
      })

module _ {F : Type 0} ⦃f : Float64 F⦄ where
  -- The metrics of the edges, and what is kept of these.
  unfoldable pub build_metrics :
      ℕ → List (ProtoEdgeB F) → List (EdgeIdx × EdgeIdx) → Outcome (MetricsState F)
  unfolding in_chunks store_metrics check_metrics
  build_metrics max_chunk_size edges proto_shortcuts =
      finished (
        in_chunks max_chunk_size (store_metrics proto_shortcuts) edges
          (record { metrics = []; new_proto_edges = []; new_sc_edges = []; edge_idx = 0 }))
      >>= λ s. check_metrics s.metrics >>= λ _. ok s

module _ {F : Type 0} ⦃f : Float64 F⦄ {C : Type 0} where
  -- From the inserted edges to the sorted ones without duplicates, and the corrected shortcuts.
  unfoldable pub unique_edges :
      ℕ → Graph F C → GraphBuilder F C → Outcome (List (ProtoEdgeB F) × List (EdgeIdx × EdgeIdx))
  unfolding in_chunks replace_ids sort_forward remap_shortcuts remove_duplicates correct_shortcuts
  unique_edges max_chunk_size graph b =
      finished (in_chunks max_chunk_size (replace_ids (nodes graph)) b.proto_edges [])
      >>= λ replaced. sort_forward (nodes graph) replaced >>= λ sorted.
          remap_shortcuts sorted b.proto_shortcuts >>= λ remapped.
          remove_duplicates is_duplicate sorted >>= λ unique.
          correct_shortcuts unique.1 unique.0 remapped >>= λ proto_shortcuts.
          ok (unique.0, proto_shortcuts)

  -- The arrays of the graph.
  unfoldable pub build_arrays : Graph F C → MetricsState F → Outcome (Graph F C)
  unfolding build_shortcuts build_forward build_edge_ids sort_backward build_backward
  build_arrays graph s = build_shortcuts s.new_sc_edges (length s.new_proto_edges) >>= λ sc.
      expect (build_forward s.new_proto_edges) >>= λ fwd.
      build_edge_ids fwd.edge_ids_to_idx_map >>= λ edge_ids_to_idx_map.
      sort_backward (nodes graph) fwd.passed >>= λ backward.
      expect (build_backward backward) >>= λ bwd. ok (record graph {
        metrics = s.metrics;
        sc_offsets = sc.sc_offsets;
        sc_edges = sc.sc_edges;
        fwd_dsts = fwd.fwd_dsts;
        fwd_offsets = fwd.fwd_offsets;
        fwd_to_fwd_map = fwd.fwd_to_fwd_map;
        bwd_dsts = fwd.bwd_dsts;
        bwd_offsets = bwd.bwd_offsets;
        bwd_to_fwd_map = bwd.bwd_to_fwd_map;
        edge_ids = fwd.edge_ids;
        edge_ids_to_idx_map = edge_ids_to_idx_map;
      })

  -- `finalize`
  unfoldable pub finalize : ChunkSizes → GraphBuilder F C → Outcome (Graph F C)
  unfolding add_nodes unique_edges build_metrics build_arrays normalize
  finalize sizes b = add_nodes b >>= λ graph. unique_edges sizes.proto_edges_b graph b >>= λ unique.
      build_metrics sizes.proto_shortcuts unique.0 unique.1 >>= λ s.
      build_arrays graph s >>= normalize
