-- ===== src/Routing/Dijkstra/Start.antt =====
-- routing/dijkstra.rs: the start of a query on a new `Dijkstra` establishes the search's invariant.
use osmgraphing.Prelude.{
  ℕ, zero, suc, ◌-◌, ◌<◌, ◌≡◌, ◌≢◌, refl, sym, ap, ◌∙◌, Bool, true, false, Option, none, some, List,
  [], ◌∷◌, length, arith, replicate, take, get_elem?, get_or, set, length-set, length-replicate,
  get_elem?-replicate, if◌then◌else◌, ltb, ◌==◌, subst,
}
use native.Mathlib.Decide.{ℕ_discrete}
use osmgraphing.Rust.Outcome.{ok}
use osmgraphing.Rust.Float.{Float64}
use osmgraphing.Network.Graph.{NodeIdx, EdgeIdx, nodes, node_count}
use osmgraphing.Routing.Dijkstra.State.{
  Direction, fwd, bwd, Both, Dijkstra, of_dir, resize, new_dijkstra, init_query, init_direction,
  reset_touched,
}
use osmgraphing.Routing.Dijkstra.Search.{Query, set_algo, prepare, start}
use osmgraphing.Routing.Dijkstra.Chain.{at_root}
use osmgraphing.Routing.Dijkstra.Sides.{
  get_or-set_self, get_or-set_ne, root, cost_at, Reached, IsSound,
}

take_nil : {A : Type 0} (n : ℕ) → ◌≡◌ {A = List A} (take n []) []
take_nil zero = refl
take_nil (suc n) = refl

resize_nil : {A : Type 0} (n : ℕ) (a : A) → resize [] n a ≡ replicate n a
unfolding resize
resize_nil {A} n a = let e : n - 0 ≡ n = omega arith in rw (take_nil {A = A} n, e) refl

get_or-replicate : {A : Type 0} (n : ℕ) (a : A) (i : ℕ) → get_or (replicate n a) i a ≡ a
get_or-replicate zero a i = refl
get_or-replicate (suc n) a zero = refl
get_or-replicate (suc n) a (suc i) = get_or-replicate n a i

not_true : (n i : ℕ) → get_elem? (replicate n false) i ≢ some true
not_true zero i h = cc
not_true (suc n) zero h = cc
not_true (suc n) (suc i) h = not_true n i h

module _ {F : Type 0} ⦃f : Float64 F⦄ (n : ℕ) where
  -- The state behind `init_query`.
  abbrev pub cleared : Bool → Dijkstra F
  cleared is_ch = record {
    is_ch_dijkstra = is_ch;
    queue = [];
    costs = record { forward = replicate n f.infinity; backward = replicate n f.infinity };
    predecessors = record { forward = replicate n none; backward = replicate n none };
    is_visited = record {
      forward = if is_ch then [] else replicate n false;
      backward = if is_ch then [] else replicate n false;
    };
    has_found_best_meeting_node = record { forward = false; backward = false };
    touched = record { forward = []; backward = [] };
  }

  pub init_query_new :
      (is_ch : Bool)
      → n ≢ 2
      → init_query n (record (new_dijkstra {F = F}) { is_ch_dijkstra = is_ch }) ≡ ok (cleared is_ch)
  unfolding init_query init_direction reset_touched new_dijkstra
  init_query_new true h =
      let apart : (2 == n) ≡ false = ground arith in
      rw (apart, resize_nil n f.infinity, resize_nil {A = Option EdgeIdx} n none) refl
  init_query_new false h =
      let apart : (2 == n) ≡ false = ground arith in
      rw (apart, resize_nil n f.infinity, resize_nil {A = Option EdgeIdx} n none) refl

module _ {F C : Type 0} ⦃f : Float64 F⦄ (rank : F → ℕ) (q : Query F C) (n : ℕ) where
  abbrev first_costs : Both (List F)
  first_costs = record {
    forward = set (replicate n f.infinity) q.src_idx f.zero;
    backward = set (replicate n f.infinity) q.dst_idx f.zero;
  }

  -- The state before the outer loop.
  abbrev pub started : Bool → Dijkstra F
  started is_ch = record (cleared n is_ch) {
    queue =
        record { idx = q.dst_idx; cost = f.zero; direction = bwd }
        ∷ record { idx = q.src_idx; cost = f.zero; direction = fwd }
        ∷ [];
    costs = first_costs;
    touched = record { forward = q.src_idx ∷ []; backward = q.dst_idx ∷ [] };
  }

  module _ (src_bound : q.src_idx < n) (dst_bound : q.dst_idx < n) where
    prepare-cleared : (is_ch : Bool) → prepare q (cleared n is_ch) ≡ ok (started is_ch)
    unfolding prepare
    prepare-cleared is_ch =
        let size = length-replicate n f.infinity in
        let source : ltb q.src_idx (length (replicate n f.infinity)) ≡ true =
          ground (arith, size) in
        let target : ltb q.dst_idx (length (replicate n f.infinity)) ≡ true =
          ground (arith, size) in
        rw (source, target) refl

    pub start_new :
        (is_ch : Bool)
        → node_count (nodes q.graph) ≡ n
        → n ≢ 2
        → set_algo q.routing_algo (new_dijkstra {F = F})
          ≡ ok (record (new_dijkstra {F = F}) { is_ch_dijkstra = is_ch })
        → start q new_dijkstra ≡ ok (started is_ch)
    unfolding start
    start_new is_ch count apart algo =
        rw (algo, count) (rw (init_query_new n is_ch apart) (prepare-cleared is_ch))

    root_at :
        (d : Direction) → cost_at rank q n (of_dir first_costs d) (root rank q n d) ≡ rank f.zero
    root_at fwd = ap rank (
        get_or-set_self (replicate n f.infinity) q.src_idx f.zero f.infinity
          (omega (arith, length-replicate n f.infinity)))
    root_at bwd = ap rank (
        get_or-set_self (replicate n f.infinity) q.dst_idx f.zero f.infinity
          (omega (arith, length-replicate n f.infinity)))

    others_at :
        (d : Direction) (v : NodeIdx)
        → v ≢ root rank q n d
        → cost_at rank q n (of_dir first_costs d) v ≡ rank f.infinity
    others_at fwd v h = ap rank (
        get_or-set_ne (replicate n f.infinity) q.src_idx v f.zero f.infinity h
        ∙ get_or-replicate n f.infinity v)
    others_at bwd v h = ap rank (
        get_or-set_ne (replicate n f.infinity) q.dst_idx v f.zero f.infinity h
        ∙ get_or-replicate n f.infinity v)

    root_chain :
        (is_ch : Bool) (d : Direction) → Reached rank q n d (started is_ch) (root rank q n d)
    root_chain is_ch fwd = at_root refl (get_elem?-replicate n none q.src_idx src_bound)
    root_chain is_ch bwd = at_root refl (get_elem?-replicate n none q.dst_idx dst_bound)

    Reached-first :
        (is_ch : Bool) (d : Direction) (v : NodeIdx)
        → cost_at rank q n (of_dir first_costs d) v ≢ rank f.infinity
        → Reached rank q n d (started is_ch) v
    Reached-first is_ch d v h = elim (ℕ_discrete v (root rank q n d)) [
      | yes e ↦ subst (Reached rank q n d (started is_ch)) (sym e) (root_chain is_ch d)
      | no ne ↦ absurd (h (others_at d v ne))
    ]

    sizes_first :
        (is_ch : Bool) (d : Direction)
        → (length (of_dir first_costs d) ≡ n) × (length (of_dir (started is_ch).predecessors d) ≡ n)
    sizes_first is_ch fwd = (
      length-set (replicate n f.infinity) q.src_idx f.zero ∙ length-replicate n f.infinity,
      length-replicate n none,
    )
    sizes_first is_ch bwd = (
      length-set (replicate n f.infinity) q.dst_idx f.zero ∙ length-replicate n f.infinity,
      length-replicate n none,
    )

    visits_first :
        (is_ch : Bool)
        → is_ch ≡ false
        → (d : Direction) → length (of_dir (started is_ch).is_visited d) ≡ n
    visits_first true h d = cc
    visits_first false h fwd = length-replicate n false
    visits_first false h bwd = length-replicate n false

    visited_first :
        (is_ch : Bool) (d : Direction) (v : NodeIdx)
        → get_elem? (of_dir (started is_ch).is_visited d) v ≡ some true
        → Reached rank q n d (started is_ch) v
    visited_first true fwd v h = cc
    visited_first true bwd v h = cc
    visited_first false fwd v h = absurd (not_true n v h)
    visited_first false bwd v h = absurd (not_true n v h)

    pub IsSound-started : (is_ch : Bool) → IsSound rank q n (started is_ch)
    IsSound-started is_ch = record {
      sizes = sizes_first is_ch;
      visits = visits_first is_ch;
      reached = Reached-first is_ch;
      visited = visited_first is_ch;
      queued = (
        record {
          bound = dst_bound;
          above = omega (arith, root_at bwd);
          chain = root_chain is_ch bwd;
        },
        (
          record {
            bound = src_bound;
            above = omega (arith, root_at fwd);
            chain = root_chain is_ch fwd;
          },
          tt,
        ),
      );
    }
