-- ===== src/Building/Shortcuts.antt =====
-- network/graph/building.rs, `finalize`: the ch-shortcut-offsets. `new_sc_edges` pairs the index of
-- each shortcut-edge, ascending, with the two edges that it replaces.
pub mod Counts
pub mod Loop
pub mod Reading
use osmgraphing.Prelude.{
  ℕ, zero, suc, ◌+◌, List, [], ◌∷◌, ◌++◌, length, replicate, if◌then◌else◌, ◌==◌,
}
use osmgraphing.Rust.Outcome.{Outcome, ok, ◌>>=◌}
use osmgraphing.Rust.Vec.{index, store}
use osmgraphing.Network.Graph.{EdgeIdx}

abbrev pub ScEdge : Type 0
ScEdge = EdgeIdx × (EdgeIdx × EdgeIdx)

-- The variables of the loop.
pub record ScState : Type 0 where
  pub sc_offset : ℕ
  pub sc_offsets : List ℕ
  pub sc_edges : List (EdgeIdx × EdgeIdx)

-- The body of the loop behind the test that breaks it.
unfoldable pub sc_step : List ScEdge → EdgeIdx → ScState → Outcome ScState
sc_step new_sc_edges edge_idx s = index new_sc_edges s.sc_offset >>= λ entry.
    store s.sc_offsets edge_idx s.sc_offset >>= λ sc_offsets. ok (
      if edge_idx == entry.0
      then record {
        sc_offset = s.sc_offset + 1;
        sc_offsets = sc_offsets;
        sc_edges = s.sc_edges ++ entry.1 ∷ [];
      }
      else record s { sc_offsets = sc_offsets })

-- `rounds` edges are left, from `edge_idx` on.
unfoldable pub sc_loop : List ScEdge → ℕ → EdgeIdx → ScState → Outcome ScState
sc_loop new_sc_edges zero edge_idx s = ok s
sc_loop new_sc_edges (suc rounds) edge_idx s =
    let rest = sc_step new_sc_edges edge_idx s >>= sc_loop new_sc_edges rounds (edge_idx + 1) in
    if s.sc_offset == length new_sc_edges then ok s else rest

-- `edges` is the number of proto-edges.
unfoldable pub build_shortcuts : List ScEdge → ℕ → Outcome ScState
build_shortcuts new_sc_edges edges = sc_loop new_sc_edges edges 0 (record {
  sc_offset = 0;
  sc_offsets = replicate (edges + 1) (length new_sc_edges);
  sc_edges = [];
})
