-- ===== src/Rust/Outcome.antt =====
-- What a Rust call can end in: a value, an `Err` with its message, or a panic.
-- `err::Msg` (src/helpers/err.rs) is a string; a constructor stands for each message's format.
use Prim.Native.String.{String}
use osmgraphing.Prelude.{ℕ, ◌≡◌, refl, ◌⊎◌, inl, inr, Option, none, some, List, [], ◌∷◌}
use osmgraphing.Prelude.Int.{ℤ}

pub data Msg : Type 0 where
  -- "Proto-node (id: {}) has no coordinates, but belongs to an edge."
  no_coordinates : ℤ → Msg
  -- "The graph contains multiple edges of same id."
  multiple_edge_ids : Msg
  -- "The edge-id {} is duplicated."
  duplicated_edge_id : ℕ → Msg
  -- "The previous edge-id {} should be smaller than next edge-id {}."
  unsorted_edge_ids : ℕ → ℕ → Msg
  -- "The provided edge-id {} is expected to be in the graph, but is not."
  unknown_edge_id : ℕ → Msg
  -- "There is a cycle of shortcut-references in the graph."
  shortcut_cycle : Msg
  -- "A metric is smaller than accuracy allows it."
  metric_too_small : Msg
  -- "Unit {:?} can't be converted to {:?}."
  not_convertible : String → String → Msg
  -- "{:?} can't be calculated by {:?} and {:?}."
  not_calculable : String → String → String → Msg
  -- "Metric-id {} should be existent in graph, but isn't."
  unknown_metric_id : List ℕ → Msg
  -- "Config has duplicate id: {}"
  duplicate_config_id : List ℕ → Msg
  -- "Id {} should be generated, but does already exist."
  generated_id_exists : List ℕ → Msg
  -- "The metrics should be normalized, but the graph has no edges, ..."
  no_edges_to_normalize : Msg
  -- "A metric-mean is zero, hence no normalization can be done."
  zero_mean : Msg
  -- "The provided fmi-map-file doesn't have enough (edge-, node-) counts."
  too_few_counts : Msg
  -- "The fmi-map-file is expected to have more edge-params (> {}) than actually has ({})."
  too_few_edge_params : ℕ → ℕ → Msg
  -- "Parsing {:?} '{}' of edge-param #{} didn't work.", with the category of this column
  unparsed_edge_param : List ℕ → ℕ → Msg
  -- "Parsing {:?} (for edge-src) '{:?}' from fmi-file, which is not i64."
  src_not_i64 : List ℕ → Msg
  -- "Parsing {:?} (for edge-dst) '{:?}' from fmi-file, which is not i64."
  dst_not_i64 : List ℕ → Msg
  -- "Src-id is already set, but another src-id {} should be parsed."
  src_already_set : List ℕ → Msg
  -- "Dst-id is already set, but another dst-id {} should be parsed."
  dst_already_set : List ℕ → Msg
  -- "Too many {:?}: parsing '{}' of edge-param #{}"
  too_many_edge_params : List ℕ → ℕ → Msg
  -- "Unsupported category {:?}"
  unsupported_category : Msg
  -- "Proto-edge should have a src-id, but doesn't."
  no_src_id : Msg
  -- "Proto-edge should have a dst-id, but doesn't."
  no_dst_id : Msg
  -- "The fmi-map-file is expected to have more node-params than actually has."
  too_few_node_params : Msg
  -- "Parsing id '{:?}' from fmi-file, which is not i64."
  node_id_not_i64 : List ℕ → Msg
  -- "Parsing ch-level '{:?}' from fmi-file, which is not usize."
  level_not_usize : List ℕ → Msg
  -- "Parsing lat '{:?}' from fmi-file, which is not f64."
  lat_not_f64 : List ℕ → Msg
  -- "Parsing lon '{:?}' from fmi-file, which is not f64."
  lon_not_f64 : List ℕ → Msg
  -- "Proto-node should have an id, but doesn't."
  no_node_id : Msg
  -- "Proto-node should have a coordinate, but latitude is misisng."
  no_latitude : Msg
  -- "Proto-node should have a coordinate, but longitude is misisng."
  no_longitude : Msg
  -- "The provided config-file doesn't contain a NodeId, but needs to."
  config_without_node_id : Msg
  -- "The provided config-file doesn't contain a latitude, but needs to."
  config_without_latitude : Msg
  -- "The provided config-file doesn't contain a longitude, but needs to."
  config_without_longitude : Msg
  -- "The provided config-file has more metrics for the graph ({}) than the parser has ... ({})."
  too_many_metrics : ℕ → ℕ → Msg
  -- "The config-file has {} shortcut-indices, but should have 0 or 2."
  shortcut_idx_count : ℕ → Msg
  -- "Writing-config has id {} which is not part of graph's node-data."
  unknown_node_data : List ℕ → Msg
  -- "Writing-config has id {} which is not part of graph's edge-data."
  unknown_edge_data : List ℕ → Msg

pub data Outcome {ℓ} (A : Type ℓ) : Type ℓ where
  ok : A → Outcome A
  err : Msg → Outcome A
  panic : Outcome A

infixl 5 ◌>>=◌
abbrev pub ◌>>=◌ {ℓ κ} : {X : Type ℓ} {Y : Type κ} → Outcome X → (X → Outcome Y) → Outcome Y
panic >>= next = panic
err msg >>= next = err msg
ok x >>= next = next x

-- `Option::expect` and `unwrap`.
abbrev pub expect {ℓ} : {A : Type ℓ} → Option A → Outcome A
expect none = panic
expect (some a) = ok a

-- `Option::ok_or`
abbrev pub ok_or {ℓ} : {A : Type ℓ} → Option A → Msg → Outcome A
ok_or none msg = err msg
ok_or (some a) msg = ok a

-- `iter().map(f).collect()` for an `f` that can fail.
abbrev pub collect {ℓ κ} : {A : Type ℓ} {B : Type κ} → (A → Outcome B) → List A → Outcome (List B)
collect f [] = ok []
collect f (x ∷ xs) = f x >>= λ y. collect f xs >>= λ ys. ok (y ∷ ys)

pub ok_inj {ℓ} : {A : Type ℓ} {a b : A} → ok a ≡ ok b → a ≡ b
ok_inj h = cc

-- A call behind `?` that returned had a step before it that returned.
pub returned {ℓ κ} :
    {X : Type ℓ} {Y : Type κ} (y : Y) (step : Outcome X) (next : X → Outcome Y)
    → (step >>= next) ≡ ok y
    → (x : X) × (next x ≡ ok y) × (step ≡ ok x)
returned y panic next h = cc
returned y (err msg) next h = cc
returned y (ok x) next h = (x, h, refl)

pub collect-cons {ℓ κ} :
    {A : Type ℓ} {B : Type κ} (f : A → Outcome B) (x : A) (xs : List A) (ys : List B)
    → collect f (x ∷ xs) ≡ ok ys
    → (y : B) × (rest : List B) × (f x ≡ ok y) × (collect f xs ≡ ok rest) × (ys ≡ y ∷ rest)
collect-cons f x xs ys h =
    let (y, h', e) = returned ys (f x) (λ y. collect f xs >>= λ rest. ok (y ∷ rest)) h in
    let (rest, h'', e') = returned ys (collect f xs) (λ rest. ok (y ∷ rest)) h' in
    (y, rest, e, e', cc)

-- A call returns, with a value or with an error: it does not panic.
abbrev pub Returns {ℓ} : {A : Type ℓ} → Outcome A → Type ℓ
Returns {A = A} o = ((x : A) × (o ≡ ok x)) ⊎ ((msg : Msg) × (o ≡ err msg))

pub bind-Returns {ℓ} :
    {X Y : Type ℓ} (o : Outcome X) (next : X → Outcome Y)
    → Returns o
    → ((x : X) → o ≡ ok x → Returns (next x))
    → Returns (o >>= next)
bind-Returns o next (inl (x, e)) h = rw e (h x e)
bind-Returns o next (inr (msg, e)) h = inr (msg, rw e refl)
