-- ===== src/Routing/Dijkstra/State.antt =====
-- routing/dijkstra.rs: `CostNode` and its order, the struct `Dijkstra`, and the methods on it.
use osmgraphing.Prelude.{
  ℕ, ◌-◌, Bool, true, false, not, ◌&&◌, Option, none, some, List, [], ◌∷◌, ◌++◌, length, replicate,
  take, if◌then◌else◌, ◌==◌, compare, Ordering,
}
use osmgraphing.Rust.Outcome.{Outcome, ok, panic, ◌>>=◌}
use osmgraphing.Rust.Vec.{index, store}
use osmgraphing.Rust.Float.{Float64, fle, feq}
use osmgraphing.Approximating.{approx_cmp}
use osmgraphing.Network.Graph.{NodeIdx, EdgeIdx}

pub data Direction : Type 0 where
  fwd bwd : Direction

pub record CostNode (F : Type 0) : Type 0 where
  pub idx : NodeIdx
  pub cost : F
  pub direction : Direction

-- `[A; 2]`, indexed by `dir_idx`.
pub record Both {ℓ} (A : Type ℓ) : Type ℓ where
  pub forward : A
  pub backward : A

abbrev pub opposite : Direction → Direction
opposite fwd = bwd
opposite bwd = fwd

-- `arrays[self.dir_idx(direction)]`
abbrev pub of_dir {ℓ} : {A : Type ℓ} → Both A → Direction → A
of_dir b fwd = b.forward
of_dir b bwd = b.backward

abbrev pub put_dir {ℓ} : {A : Type ℓ} → Both A → Direction → A → Both A
put_dir b fwd x = record b { forward = x }
put_dir b bwd x = record b { backward = x }

-- `Direction::cmp`: BWD is -1 and FWD is 1.
unfoldable pub compare_direction : Direction → Direction → Ordering
compare_direction fwd fwd = Ordering.eq
compare_direction fwd bwd = Ordering.gt
compare_direction bwd fwd = Ordering.lt
compare_direction bwd bwd = Ordering.eq

abbrev is_lt : Ordering → Bool
is_lt Ordering.lt = true
is_lt other = false

-- `Ordering::then_with`
abbrev pub then_with : Ordering → Ordering → Ordering
then_with Ordering.eq second = second
then_with first second = first

module _ {F : Type 0} ⦃f : Float64 F⦄ where
  -- `CostNode::cmp`
  unfoldable pub compare_costnode : CostNode F → CostNode F → Outcome Ordering
  unfolding compare_direction
  compare_costnode a b = approx_cmp a.cost b.cost >>= λ by_cost. ok (
      then_with (then_with by_cost (compare a.idx b.idx))
        (compare_direction a.direction b.direction))

  -- The least of `best` and the nodes, and the others.
  unfoldable pub select_min :
      CostNode F → List (CostNode F) → Outcome (CostNode F × List (CostNode F))
  unfolding compare_costnode
  select_min best [] = ok (best, [])
  select_min best (n ∷ ns) = compare_costnode n best >>= λ c.
      let less = is_lt c in
      select_min (if less then n else best) ns >>= λ found.
      ok (found.0, (if less then best else n) ∷ found.1)

  -- `BinaryHeap<Reverse<CostNode>>::pop`
  unfoldable pub pop : List (CostNode F) → Outcome (Option (CostNode F × List (CostNode F)))
  unfolding select_min
  pop [] = ok none
  pop (n ∷ ns) = select_min n ns >>= λ found. ok (some found)

pub record Dijkstra (F : Type 0) : Type 0 where
  pub is_ch_dijkstra : Bool
  pub queue : List (CostNode F)
  pub costs : Both (List F)
  pub predecessors : Both (List (Option EdgeIdx))
  pub is_visited : Both (List Bool)
  pub has_found_best_meeting_node : Both Bool
  pub touched : Both (List ℕ)

-- `self.costs.len()`: the length of the array of the two directions.
abbrev pub directions_len : ℕ
directions_len = 2

-- `Vec::resize`
unfoldable pub resize {ℓ} : {A : Type ℓ} → List A → ℕ → A → List A
resize xs n a = take n xs ++ replicate (n - length xs) a

module _ {F : Type 0} ⦃f : Float64 F⦄ where
  -- `Dijkstra::new`
  unfoldable pub new_dijkstra : Dijkstra F
  new_dijkstra = record {
    is_ch_dijkstra = false;
    queue = [];
    costs = record { forward = []; backward = [] };
    predecessors = record { forward = []; backward = [] };
    is_visited = record { forward = []; backward = [] };
    has_found_best_meeting_node = record { forward = false; backward = false };
    touched = record { forward = []; backward = [] };
  }

  -- `for i in self.touched[dir].drain(..)`, on the costs and the predecessors
  unfoldable pub reset_touched :
      List ℕ → List F → List (Option EdgeIdx) → Outcome (List F × List (Option EdgeIdx))
  reset_touched [] costs preds = ok (costs, preds)
  reset_touched (i ∷ is) costs preds = store costs i f.infinity >>= λ costs'.
      store preds i none >>= λ preds'. reset_touched is costs' preds'

  -- The body of the loop of `init_query` for one direction.
  unfoldable pub init_direction : ℕ → Direction → Dijkstra F → Outcome (Dijkstra F)
  unfolding resize reset_touched
  init_direction new_len dir s =
      let same_len = directions_len == new_len in
      let costs =
        if same_len then of_dir s.costs dir else resize (of_dir s.costs dir) new_len f.infinity in
      let preds =
        if same_len
        then of_dir s.predecessors dir
        else resize (of_dir s.predecessors dir) new_len none in
      reset_touched (of_dir s.touched dir) costs preds >>= λ clean. ok (record s {
        costs = put_dir s.costs dir clean.0;
        predecessors = put_dir s.predecessors dir clean.1;
        touched = put_dir s.touched dir [];
        is_visited =
            (if s.is_ch_dijkstra
              then s.is_visited
              else put_dir s.is_visited dir (replicate new_len false));
        has_found_best_meeting_node = put_dir s.has_found_best_meeting_node dir false;
      })

  -- `init_query`
  unfoldable pub init_query : ℕ → Dijkstra F → Outcome (Dijkstra F)
  unfolding init_direction
  init_query new_len s = init_direction new_len fwd s >>= λ s'.
      init_direction new_len bwd s' >>= λ s''. ok (record s'' { queue = [] })

  -- `visit`
  unfoldable pub visit : CostNode F → Dijkstra F → Outcome (Dijkstra F)
  visit n s =
      if s.is_ch_dijkstra
      then ok s
      else (store (of_dir s.is_visited n.direction) n.idx true >>= λ v.
          ok (record s { is_visited = put_dir s.is_visited n.direction v }))

  -- `is_meeting_costnode`; the node itself has to be visited (`debug_assert!`).
  unfoldable pub is_meeting_costnode : Dijkstra F → CostNode F → Outcome Bool
  is_meeting_costnode s n =
      if s.is_ch_dijkstra
      then (index (of_dir s.costs (opposite n.direction)) n.idx >>= λ c.
          ok (not (feq c f.infinity)))
      else (index (of_dir s.is_visited n.direction) n.idx >>= λ visited.
          if visited then index (of_dir s.is_visited (opposite n.direction)) n.idx else panic)

  -- The method `has_found_best_meeting_node`.
  unfoldable pub has_found_both : Dijkstra F → Bool
  has_found_both s = s.has_found_best_meeting_node.forward && s.has_found_best_meeting_node.backward

  unfoldable pub has_costnode_improved : Dijkstra F → CostNode F → Outcome Bool
  has_costnode_improved s n = index (of_dir s.costs n.direction) n.idx >>= λ c. ok (fle n.cost c)

  unfoldable pub total_cost : Dijkstra F → CostNode F → Outcome F
  total_cost s n =
      index s.costs.forward n.idx >>= λ a. index s.costs.backward n.idx >>= λ b. ok (f.add a b)
