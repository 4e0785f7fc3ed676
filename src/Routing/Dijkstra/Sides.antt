-- ===== src/Routing/Dijkstra/Sides.antt =====
-- routing/dijkstra.rs: the two directions' vectors, the ranks of their costs, and what is reached.
use osmgraphing.Prelude.{
  ℕ, zero, suc, ◌+◌, ◌*◌, ◌<◌, ◌≤◌, ◌≡◌, ◌≢◌, refl, ap, ◌∙◌, Bool, true, false, Option, some, List,
  [], ◌∷◌, length, arith, All, get_elem?, get_or, set, if◌then◌else◌,
}
use osmgraphing.Rust.Float.{Float64}
use osmgraphing.Network.Graph.{NodeIdx, EdgeIdx}
use osmgraphing.Routing.Dijkstra.State.{
  Direction, fwd, bwd, CostNode, Both, Dijkstra, of_dir, put_dir,
}
use osmgraphing.Routing.Dijkstra.Search.{Query}
use osmgraphing.Routing.Dijkstra.Chain.{Chain}
use osmgraphing.Routing.Dijkstra.Walk.{Goes}

-- What holds of both directions' vectors is kept by a write to one direction that keeps it.
pub put_rule :
    {A B : Type 0} (P : Direction → A → B → Type 0) (as' : Both A) (bs : Both B) (d : Direction)
    (a : A) (b : B)
    → P d a b
    → ((d' : Direction) → P d' (of_dir as' d') (of_dir bs d'))
    → (d' : Direction) → P d' (of_dir (put_dir as' d a) d') (of_dir (put_dir bs d b) d')
put_rule P as' bs fwd a b new old fwd = new
put_rule P as' bs fwd a b new old bwd = old bwd
put_rule P as' bs bwd a b new old fwd = old fwd
put_rule P as' bs bwd a b new old bwd = new

-- What holds of the vectors that are written holds at their direction.
pub put_here :
    {A B : Type 0} (P : A → B → Type 0) (as' : Both A) (bs : Both B) (d : Direction) (a : A) (b : B)
    → P a b
    → P (of_dir (put_dir as' d a) d) (of_dir (put_dir bs d b) d)
put_here P as' bs fwd a b p = p
put_here P as' bs bwd a b p = p

-- A node that may be pushed.
pub All_pushed :
    {A : Type 0} (P : A → Type 0) (b : Bool) (x : A) (xs : List A)
    → P x
    → All P xs
    → All P (if b then x ∷ xs else xs)
All_pushed P true x xs p ps = (p, ps)
All_pushed P false x xs p ps = ps

pub length_pushed :
    {A : Type 0} (b : Bool) (x : A) (xs : List A)
    → length (if b then x ∷ xs else xs) ≤ suc (length xs)
length_pushed true x xs = omega arith
length_pushed false x xs = omega arith

module _ {A : Type 0} where
  pub get_or-eq : (xs : List A) (i : ℕ) (a d : A) → get_elem? xs i ≡ some a → get_or xs i d ≡ a
  get_or-eq [] i a d h = cc
  get_or-eq (x ∷ xs) zero a d h = cc
  get_or-eq (x ∷ xs) (suc i) a d h = get_or-eq xs i a d h

  pub get_or-set_self :
      (xs : List A) (i : ℕ) (v d : A) → i < length xs → get_or (set xs i v) i d ≡ v
  get_or-set_self [] i v d h = elim h [ ]
  get_or-set_self (x ∷ xs) zero v d h = refl
  get_or-set_self (x ∷ xs) (suc i) v d h = get_or-set_self xs i v d (omega arith)

  pub get_or-set_ne :
      (xs : List A) (i j : ℕ) (v d : A) → j ≢ i → get_or (set xs i v) j d ≡ get_or xs j d
  get_or-set_ne [] i j v d h = refl
  get_or-set_ne (x ∷ xs) zero zero v d h = absurd (h refl)
  get_or-set_ne (x ∷ xs) zero (suc j) v d h = refl
  get_or-set_ne (x ∷ xs) (suc i) zero v d h = refl
  get_or-set_ne (x ∷ xs) (suc i) (suc j) v d h = get_or-set_ne xs i j v d (λ e. h (ap suc e))

module _ {F : Type 0} (rank : F → ℕ) where
  abbrev pub ranks : List F → ℕ
  ranks [] = 0
  ranks (x ∷ xs) = rank x + ranks xs

  pub ranks-set :
      (xs : List F) (i : ℕ) (a b : F)
      → get_elem? xs i ≡ some a
      → ranks (set xs i b) + rank a ≡ ranks xs + rank b
  ranks-set [] i a b h = cc
  ranks-set (x ∷ xs) zero a b h = let e : x ≡ a = cc in omega (arith, ap rank e)
  ranks-set (x ∷ xs) (suc i) a b h = omega (arith, ranks-set xs i a b h)

  abbrev pub both_ranks : Both (List F) → ℕ
  both_ranks b = ranks b.forward + ranks b.backward

  pub both_ranks-put_dir :
      (b : Both (List F)) (d : Direction) (xs : List F)
      → both_ranks (put_dir b d xs) + ranks (of_dir b d) ≡ both_ranks b + ranks xs
  both_ranks-put_dir b fwd xs = omega arith
  both_ranks-put_dir b bwd xs = omega arith

  -- Every improvement lowers a cost, and adds a node to the queue at most.
  abbrev pub measure : Dijkstra F → ℕ
  measure s = 2 * both_ranks s.costs + length s.queue

module _ {F C : Type 0} ⦃f : Float64 F⦄ (rank : F → ℕ) (q : Query F C) (n : ℕ) where
  abbrev pub root : Direction → NodeIdx
  root fwd = q.src_idx
  root bwd = q.dst_idx

  abbrev pub cost_at : List F → NodeIdx → ℕ
  cost_at costs v = rank (get_or costs v f.infinity)

  -- A chain of predecessors leads from the node to the direction's first node.
  abbrev pub ReachedBy : Direction → List F → List (Option EdgeIdx) → NodeIdx → Type 0
  ReachedBy d costs preds v = Chain (Goes q.graph d) (get_elem? preds) (cost_at costs) (root d) v

  abbrev pub Reached : Direction → Dijkstra F → NodeIdx → Type 0
  Reached d s v = ReachedBy d (of_dir s.costs d) (of_dir s.predecessors d) v

  -- A node of the queue is reached, at no more than its cost.
  pub record Queued (s : Dijkstra F) (node : CostNode F) : Type 0 where
    pub bound : node.idx < n
    pub above : cost_at (of_dir s.costs node.direction) node.idx ≤ rank node.cost
    pub chain : Reached node.direction s node.idx

  pub record IsSound (s : Dijkstra F) : Type 0 where
    pub sizes :
        (d : Direction) → (length (of_dir s.costs d) ≡ n) × (length (of_dir s.predecessors d) ≡ n)
    pub visits : s.is_ch_dijkstra ≡ false → (d : Direction) → length (of_dir s.is_visited d) ≡ n
    pub reached :
        (d : Direction) (v : NodeIdx)
        → cost_at (of_dir s.costs d) v ≢ rank f.infinity
        → Reached d s v
    pub visited :
        (d : Direction) (v : NodeIdx)
        → get_elem? (of_dir s.is_visited d) v ≡ some true
        → Reached d s v
    pub queued : All (Queued s) s.queue

  -- From `s` to `t` chains are kept, and costs do not grow.
  pub record Advances (s t : Dijkstra F) : Type 0 where
    pub keeps : (d : Direction) (v : NodeIdx) → Reached d s v → Reached d t v
    pub lowers :
        (d : Direction) (v : NodeIdx) → cost_at (of_dir t.costs d) v ≤ cost_at (of_dir s.costs d) v
    pub same_algo : t.is_ch_dijkstra ≡ s.is_ch_dijkstra

  pub Queued-Advances :
      (s t : Dijkstra F) (node : CostNode F) → Advances s t → Queued s node → Queued t node
  Queued-Advances s t node a c = record {
    bound = c.bound;
    above = omega (arith, c.above, a.lowers node.direction node.idx);
    chain = a.keeps node.direction node.idx c.chain;
  }

  pub Advances-self : (s : Dijkstra F) → Advances s s
  Advances-self s = record { keeps = λ d v c. c; lowers = λ d v. omega arith; same_algo = refl }

  pub Advances-trans : (s t u : Dijkstra F) → Advances s t → Advances t u → Advances s u
  Advances-trans s t u a b = record {
    keeps = λ d v c. b.keeps d v (a.keeps d v c);
    lowers = λ d v. omega (arith, a.lowers d v, b.lowers d v);
    same_algo = b.same_algo ∙ a.same_algo;
  }
