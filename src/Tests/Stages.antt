-- ===== src/Tests/Stages.antt =====
-- Two sorted edges that were inserted in the other order, and two pairs of the mapping from ids.
use osmgraphing.Prelude.{ℕ, ◌≡◌, refl, none, some, List, [], ◌∷◌, get_elem?, arith}
use osmgraphing.Rust.Outcome.{ok}
use osmgraphing.Network.Graph.{EdgeIdx}
use osmgraphing.Building.Protos.{ProtoEdgeB}
use osmgraphing.Rust.Sort.{sort_by, insert_by, dedup_by, kept}
use osmgraphing.Building.Remap.{map_indices, old_indices, map_indices_total}
use osmgraphing.Building.Checks.{build_edge_ids, AreAscending, build_edge_ids-AreAscending}

abbrev swapped : List (ProtoEdgeB ℕ)
swapped =
    record { idx = 1; id = none; src_idx = 0; dst_idx = 1; metrics = []; sc_edges = none }
    ∷ record { idx = 0; id = none; src_idx = 1; dst_idx = 2; metrics = []; sc_edges = none }
    ∷ []

map_indices_example :
    (t : List ℕ) × (map_indices swapped ≡ ok t)
    × ((p o : ℕ) → get_elem? (old_indices swapped) p ≡ some o → get_elem? t o ≡ some p)
map_indices_example =
    map_indices_total swapped (omega arith, (omega arith, tt)) (ground arith, (ground arith, tt))

abbrev pairs : List (ℕ × EdgeIdx)
pairs = (8, 0) ∷ (5, 1) ∷ []

build_edge_ids_example : AreAscending ((5, 1) ∷ (8, 0) ∷ [])
build_edge_ids_example =
    build_edge_ids-AreAscending pairs ((5, 1) ∷ (8, 0) ∷ [])
      (unfold build_edge_ids sort_by insert_by dedup_by kept in refl)
