-- ===== src/Tests/Shortcuts.antt =====
-- Three edges, the last of which is a shortcut over the others.
use osmgraphing.Prelude.{
  ℕ, ◌≡◌, refl, none, some, List, [], ◌∷◌, arith, get_elem?, false, ◌≤◌, zero, suc,
}
use osmgraphing.Rust.Outcome.{ok}
use osmgraphing.Network.Graph.{EdgeAccessor, sc_edges_at}
use osmgraphing.Building.Offsets.Tail.{count_below}
use osmgraphing.Building.Shortcuts.{ScEdge, ScState, build_shortcuts}
use osmgraphing.Building.Shortcuts.Loop.{keys, IsCounted, build_shortcuts_total}
use osmgraphing.Building.Shortcuts.Reading.{HoldsShortcuts, sc_edges_at_shortcut, sc_edges_at_plain}

abbrev pub with_shortcut : EdgeAccessor ℕ
with_shortcut = record {
  edge_ids = none ∷ none ∷ none ∷ [];
  edge_ids_to_idx_map = [];
  edge_dsts = 1 ∷ 2 ∷ 2 ∷ [];
  offsets = 0 ∷ 1 ∷ 3 ∷ [];
  xwd_to_fwd_map = 0 ∷ 1 ∷ 2 ∷ [];
  metrics = record {
    cfg = record { dim = 1; are_normalized = false };
    metrics = (3 ∷ []) ∷ (4 ∷ []) ∷ (7 ∷ []) ∷ [];
    means = none;
  };
  sc_offsets = 0 ∷ 0 ∷ 0 ∷ 1 ∷ [];
  sc_edges = (0, 1) ∷ [];
}

abbrev shortcuts : List ScEdge
shortcuts = (2, (0, 1)) ∷ []

offsets_lem :
    (j : ℕ) → j ≤ 3 → get_elem? with_shortcut.sc_offsets j ≡ some (count_below j (keys shortcuts))
unfolding count_below
offsets_lem zero h = refl
offsets_lem (suc zero) h = refl
offsets_lem (suc (suc zero)) h = refl
offsets_lem (suc (suc (suc zero))) h = refl
offsets_lem (suc (suc (suc (suc j)))) h = absurd (omega arith)

with_shortcut-HoldsShortcuts : HoldsShortcuts with_shortcut shortcuts 3
with_shortcut-HoldsShortcuts = record { strict = (tt, tt); offsets = offsets_lem; edges = refl }

sc_edges_at_shortcut_example : sc_edges_at with_shortcut 2 ≡ ok (some (0, 1))
sc_edges_at_shortcut_example =
    sc_edges_at_shortcut with_shortcut shortcuts 3 0 2 (0, 1) with_shortcut-HoldsShortcuts
      (omega arith) refl

sc_edges_at_plain_example : sc_edges_at with_shortcut 1 ≡ ok none
sc_edges_at_plain_example =
    sc_edges_at_plain with_shortcut shortcuts 3 1 with_shortcut-HoldsShortcuts (omega arith)
      (ground arith)

build_shortcuts_example :
    (t : ScState) × (build_shortcuts shortcuts 3 ≡ ok t) × IsCounted shortcuts 3 t
build_shortcuts_example = build_shortcuts_total shortcuts 3 (tt, tt) (omega arith, tt)
