-- ===== src/Tests/Finalize.antt =====
-- A builder of four edges on three nodes, two of them the same, is finished.
use osmgraphing.Rust.Outcome.{Returns}
use osmgraphing.Building.Finalize.Prepared.{IsReady}
use osmgraphing.Building.Finalize.Total.{builder_nodes, finalize_total}
use osmgraphing.Prelude.{ℕ, ◌≡◌, refl, inl, inr, none, some, [], ◌∷◌, arith, false}
use osmgraphing.Prelude.Int.{pos}
use osmgraphing.Rust.Outcome.{ok}
use osmgraphing.Rust.Search.{binary_search}
use osmgraphing.Rust.Sort.{sort_by, insert_by, dedup_by, kept}
use osmgraphing.Approximating.{approx, approx_eq, approx_eq_all}
use osmgraphing.Network.Graph.{Graph, nodes, node_idx_from, node_level}
use osmgraphing.Building.Protos.{GraphBuilder}
use osmgraphing.Building.Nodes.{new_graph, check_coordinates}
use osmgraphing.Building.Chunks.{for_each, work_off, in_chunks, in_chunks_lem}
use osmgraphing.Building.Stages.{
  proto_edge_b, replace_ids, compare_key, sort_by_key, sort_forward, sort_backward,
  correct_shortcuts, corrected, add_metrics, remember_shortcut, store_metrics,
}
use osmgraphing.Building.Remap.{fill_indices, map_indices, update_shortcuts, remap_shortcuts}
use osmgraphing.Building.Dedup.{
  is_duplicate, swap, dedup_step, dedup_loop, remove_duplicates, correct_index, correct_shortcut,
}
use osmgraphing.Building.Checks.{any_too_small, check_metrics, check_edge_ids, build_edge_ids}
use osmgraphing.Building.Shortcuts.{sc_step, sc_loop, build_shortcuts}
use osmgraphing.Building.Offsets.{
  advance, forward_start, forward_step, forward_loop, build_forward, backward_start, backward_step,
  backward_loop, build_backward,
}
use osmgraphing.Building.Normalize.{normalize}
use osmgraphing.Building.Finalize.{
  ChunkSizes, add_nodes, unique_edges, build_metrics, build_arrays, finalize,
}
use osmgraphing.Building.Finalize.Leaving.{Inserted, LeadsAsInserted, finalize_leaving}
use osmgraphing.Tests.Numbers.{numbers}

abbrev builder : GraphBuilder ℕ ℕ
builder = record {
  cfg = record { dim = 1; are_normalized = false };
  node_ids = pos 3 ∷ pos 7 ∷ pos 9 ∷ [];
  node_coords = some 0 ∷ some 1 ∷ some 2 ∷ [];
  node_ch_levels = 0 ∷ 1 ∷ 0 ∷ [];
  proto_edges =
      record {
        idx = 0;
        id = none;
        src_id = pos 9;
        dst_id = pos 3;
        metrics = 6 ∷ [];
        sc_edges = none;
      }
      ∷ record {
        idx = 1;
        id = none;
        src_id = pos 3;
        dst_id = pos 9;
        metrics = 5 ∷ [];
        sc_edges = none;
      }
      ∷ record {
        idx = 2;
        id = none;
        src_id = pos 3;
        dst_id = pos 7;
        metrics = 4 ∷ [];
        sc_edges = none;
      }
      ∷ record {
        idx = 3;
        id = none;
        src_id = pos 3;
        dst_id = pos 9;
        metrics = 5 ∷ [];
        sc_edges = none;
      }
      ∷ [];
  proto_shortcuts = [];
}

abbrev sizes : ChunkSizes
sizes = record { proto_edges_b = 3; proto_shortcuts = 2 }

abbrev graph : Graph ℕ ℕ
graph = record {
  cfg = record { dim = 1; are_normalized = false };
  node_ids = pos 3 ∷ pos 7 ∷ pos 9 ∷ [];
  node_coords = 0 ∷ 1 ∷ 2 ∷ [];
  node_ch_levels = 0 ∷ 1 ∷ 0 ∷ [];
  fwd_dsts = 1 ∷ 2 ∷ 0 ∷ [];
  fwd_offsets = 0 ∷ 2 ∷ 2 ∷ 3 ∷ [];
  fwd_to_fwd_map = 0 ∷ 1 ∷ 2 ∷ [];
  bwd_dsts = 0 ∷ 0 ∷ 2 ∷ [];
  bwd_offsets = 0 ∷ 1 ∷ 2 ∷ 3 ∷ [];
  bwd_to_fwd_map = 2 ∷ 0 ∷ 1 ∷ [];
  metrics = (4 ∷ []) ∷ (5 ∷ []) ∷ (6 ∷ []) ∷ [];
  means = none;
  edge_ids = none ∷ none ∷ none ∷ [];
  edge_ids_to_idx_map = [];
  sc_offsets = 0 ∷ 0 ∷ 0 ∷ 0 ∷ [];
  sc_edges = [];
}

finalize_ends : finalize ⦃f = numbers⦄ sizes builder ≡ ok graph
unfolding finalize add_nodes unique_edges build_metrics build_arrays normalize binary_search sort_by
    insert_by dedup_by kept approx approx_eq approx_eq_all node_idx_from node_level nodes new_graph
    check_coordinates for_each work_off in_chunks proto_edge_b replace_ids compare_key sort_by_key
    sort_forward sort_backward correct_shortcuts corrected add_metrics remember_shortcut
    store_metrics fill_indices map_indices update_shortcuts remap_shortcuts is_duplicate swap
    dedup_step dedup_loop remove_duplicates correct_index correct_shortcut any_too_small
    check_metrics check_edge_ids build_edge_ids sc_step sc_loop build_shortcuts advance
    forward_start forward_step forward_loop build_forward backward_start backward_step backward_loop
    build_backward
finalize_ends = refl

ends-Inserted : Inserted builder graph (0, 2)
unfolding node_idx_from nodes binary_search
ends-Inserted = (
  record { idx = 1; id = none; src_id = pos 3; dst_id = pos 9; metrics = 5 ∷ []; sc_edges = none },
  inr (inl refl),
  (refl, refl),
)

finalize_leaving_example : LeadsAsInserted builder graph 0
finalize_leaving_example =
    finalize_leaving ⦃f = numbers⦄ sizes builder graph 0 (0, 2) (omega arith) (omega arith)
      finalize_ends ends-Inserted (omega arith)

in_chunks_example :
    in_chunks 3 (replace_ids (nodes graph)) builder.proto_edges []
    ≡ some (for_each (replace_ids (nodes graph)) builder.proto_edges [])
in_chunks_example = in_chunks_lem 3 (replace_ids (nodes graph)) builder.proto_edges [] (omega arith)

builder-IsReady : IsReady (builder_nodes builder) builder
builder-IsReady = record {
  ascending = ((refl, (refl, tt)), ((refl, tt), (tt, tt)));
  levels = refl;
  complete = (
    record { src = inr (inr (inl refl)); dst = inl refl; shortcut = λ j q. cc; dim = refl },
    (
      record { src = inl refl; dst = inr (inr (inl refl)); shortcut = λ j q. cc; dim = refl },
      (
        record { src = inl refl; dst = inr (inl refl); shortcut = λ j q. cc; dim = refl },
        (
          record { src = inl refl; dst = inr (inr (inl refl)); shortcut = λ j q. cc; dim = refl },
          tt,
        ),
      ),
    ),
  );
  low = (omega arith, (omega arith, (omega arith, (omega arith, tt))));
  unique = (λ m. ground arith, (λ m. ground arith, (λ m. ground arith, (λ m. m, tt))));
  halves = tt;
}

finalize_total_example : Returns (finalize ⦃f = numbers⦄ sizes builder)
finalize_total_example =
    finalize_total ⦃f = numbers⦄ sizes builder (omega arith) (omega arith) refl builder-IsReady
