-- ===== src/Writing/EdgeLine/Columns.antt =====
-- The columns of a written edge: each is the edge's value for its category.
use osmgraphing.Prelude.{
  ℕ, ◌≡◌, ◌≢◌, refl, sym, ap, Bool, Option, none, some, List, [], ◌∷◌, map, All,
}
use osmgraphing.Prelude.Int.{ℤ}
use osmgraphing.Rust.Outcome.{Outcome, ok, ◌>>=◌, returned}
use osmgraphing.Rust.Words.{IsWord, IsPlain, join}
use osmgraphing.Rust.Numerals.{display_usize, display_i64}
use osmgraphing.Rust.Numerals.RoundTrip.{
  display_usize-IsWord, display_i64-IsWord, display_usize-IsPlain, display_i64-IsPlain,
}
use osmgraphing.Rust.Float.{Float64, FloatText, RoundTrips}
use osmgraphing.Network.Geo.{Geo}
use osmgraphing.Network.Graph.{
  EdgeIdx, Graph, nodes, fwd_edges, bwd_edges, node_id, edge_id, try_id, dst_idx, sc_edges_at,
}
use osmgraphing.Network.Street.Text.{Text, is_whitespace}
use osmgraphing.Configs.Metrics.{SimpleId}
use osmgraphing.Configs.Edges
use osmgraphing.Configs.Edges.Ids.{AreDistinct}
use osmgraphing.Writing.Row.{ignore_str, write_column, write_row}
use osmgraphing.Writing.Row.Lookup.{text_eq_self, text_eq_ne, ids_by, write_row-lookup}
use osmgraphing.Writing.EdgeLine.{first_half, second_half, edge_metric, write_edge_data}

-- A category's column in the writing-config that names what is parsed.
abbrev pub column_of : Edges.Category → Option SimpleId
column_of (Edges.Category.meta info id) = some id
column_of (Edges.Category.metric unit id) = some id
column_of Edges.Category.ignored = none

-- What the graph holds of an edge.
pub record EdgeValues (F : Type 0) : Type 0 where
  pub id : Option ℕ
  pub src_id : ℤ
  pub dst_id : ℤ
  pub sc_edges : Option (EdgeIdx × EdgeIdx)
  pub value : SimpleId → F

pub record Holds {F C : Type 0} (graph : Graph F C) (edge_idx : EdgeIdx) (d : EdgeValues F)
    : Type 0 where
  pub holds_id : try_id (fwd_edges graph) edge_idx ≡ ok d.id
  pub holds_src : (dst_idx (bwd_edges graph) edge_idx >>= node_id (nodes graph)) ≡ ok d.src_id
  pub holds_dst : (dst_idx (fwd_edges graph) edge_idx >>= node_id (nodes graph)) ≡ ok d.dst_id
  pub holds_sc_edges : sc_edges_at (fwd_edges graph) edge_idx ≡ ok d.sc_edges

abbrev pub id_text : Option ℕ → Text
id_text none = []
id_text (some id) = display_usize id

edge_id-some :
    {F C : Type 0} (graph : Graph F C) (edge_idx : EdgeIdx) (o : Option ℕ) (id : ℕ)
    → try_id (fwd_edges graph) edge_idx ≡ ok o
    → o ≡ some id
    → edge_id (fwd_edges graph) edge_idx ≡ ok id
unfolding edge_id
edge_id-some graph edge_idx o id h e = rw h (rw e refl)

then_display :
    {A B : Type 0} (o : Outcome A) (next : A → Outcome B) (show : B → Text) (b : B)
    → (o >>= next) ≡ ok b
    → (o >>= λ a. next a >>= λ b. ok (show b)) ≡ ok (show b)
then_display o next show b h = let (a, h', e) = returned b o next h in rw e (rw h' refl)

id_text-IsWord : (o : Option ℕ) (n : ℕ) → o ≡ some n → IsWord (id_text o)
id_text-IsWord o n e = rw e (display_usize-IsWord n)

first_half-IsWord : (o : Option (EdgeIdx × EdgeIdx)) → IsWord (first_half o)
unfolding first_half is_whitespace
first_half-IsWord none = ((λ h. cc), (refl, (refl, tt)))
first_half-IsWord (some (sc_edge_0, sc_edge_1)) = display_usize-IsWord sc_edge_0

second_half-IsWord : (o : Option (EdgeIdx × EdgeIdx)) → IsWord (second_half o)
unfolding second_half is_whitespace
second_half-IsWord none = ((λ h. cc), (refl, (refl, tt)))
second_half-IsWord (some (sc_edge_0, sc_edge_1)) = display_usize-IsWord sc_edge_1

id_text-IsPlain : (o : Option ℕ) (n : ℕ) → o ≡ some n → IsPlain (id_text o)
id_text-IsPlain o n e = rw e (display_usize-IsPlain n)

first_half-IsPlain : (o : Option (EdgeIdx × EdgeIdx)) → IsPlain (first_half o)
unfolding first_half
first_half-IsPlain none = refl
first_half-IsPlain (some (sc_edge_0, sc_edge_1)) = display_usize-IsPlain sc_edge_0

second_half-IsPlain : (o : Option (EdgeIdx × EdgeIdx)) → IsPlain (second_half o)
unfolding second_half
second_half-IsPlain none = refl
second_half-IsPlain (some (sc_edge_0, sc_edge_1)) = display_usize-IsPlain sc_edge_1

module _ {F : Type 0} ⦃t : FloatText F⦄ where
  -- The edge's value for a category.
  abbrev pub edge_text : EdgeValues F → Edges.Category → Text
  edge_text d (Edges.Category.meta Edges.MetaInfo.edge_id id) = id_text d.id
  edge_text d (Edges.Category.meta Edges.MetaInfo.src_id id) = display_i64 d.src_id
  edge_text d (Edges.Category.meta Edges.MetaInfo.dst_id id) = display_i64 d.dst_id
  edge_text d (Edges.Category.meta Edges.MetaInfo.shortcut_idx_0 id) = first_half d.sc_edges
  edge_text d (Edges.Category.meta Edges.MetaInfo.shortcut_idx_1 id) = second_half d.sc_edges
  edge_text d (Edges.Category.meta _ id) = []
  edge_text d (Edges.Category.metric unit id) = t.display_f64 (d.value id)
  edge_text d Edges.Category.ignored = ignore_str

module _ {F C : Type 0} ⦃f : Float64 F⦄ ⦃t : FloatText F⦄ ⦃geo : Geo F C⦄ where
  module _ (graph : Graph F C) (edge_idx : EdgeIdx) (metric_ids : List SimpleId)
      (is_denormalizing : Bool) (d : EdgeValues F) where
    -- What can be written and parsed: an id only if the edge has one, a metric only if the graph
    -- has its value, and neither the indices nor the coordinates of the ends.
    abbrev pub IsWritable : Edges.Category → Type 0
    IsWritable (Edges.Category.meta Edges.MetaInfo.edge_id id) = (n : ℕ) × (d.id ≡ some n)
    IsWritable (Edges.Category.meta Edges.MetaInfo.src_id id) = Unit
    IsWritable (Edges.Category.meta Edges.MetaInfo.dst_id id) = Unit
    IsWritable (Edges.Category.meta Edges.MetaInfo.shortcut_idx_0 id) = Unit
    IsWritable (Edges.Category.meta Edges.MetaInfo.shortcut_idx_1 id) = Unit
    IsWritable (Edges.Category.meta _ id) = ⊥
    IsWritable (Edges.Category.metric unit id) =
        edge_metric graph edge_idx metric_ids is_denormalizing id ≡ ok (d.value id)
    IsWritable Edges.Category.ignored = Unit

    module _ (holds : Holds graph edge_idx d) where
      head-written :
          (c : Edges.Category) (cs : List Edges.Category)
          → IsWritable c
          → write_column
              (write_edge_data graph edge_idx metric_ids is_denormalizing (c ∷ cs))
              (column_of c)
            ≡ ok (edge_text d c)
      unfolding write_column write_edge_data
      head-written (Edges.Category.meta Edges.MetaInfo.edge_id id) cs (n, e) =
          rw (text_eq_self id) (
            rw (edge_id-some graph edge_idx d.id n holds.holds_id e)
              (ap (λ o. ok (id_text o)) (sym e)))
      head-written (Edges.Category.meta Edges.MetaInfo.src_id id) cs s = rw (text_eq_self id) (
          then_display (dst_idx (bwd_edges graph) edge_idx) (node_id (nodes graph)) display_i64
            d.src_id holds.holds_src)
      head-written (Edges.Category.meta Edges.MetaInfo.dst_id id) cs s = rw (text_eq_self id) (
          then_display (dst_idx (fwd_edges graph) edge_idx) (node_id (nodes graph)) display_i64
            d.dst_id holds.holds_dst)
      head-written (Edges.Category.meta Edges.MetaInfo.shortcut_idx_0 id) cs s =
          rw (text_eq_self id) (ap (λ o. o >>= λ sc. ok (first_half sc)) holds.holds_sc_edges)
      head-written (Edges.Category.meta Edges.MetaInfo.shortcut_idx_1 id) cs s =
          rw (text_eq_self id) (ap (λ o. o >>= λ sc. ok (second_half sc)) holds.holds_sc_edges)
      head-written (Edges.Category.meta Edges.MetaInfo.src_idx id) cs s = absurd s
      head-written (Edges.Category.meta Edges.MetaInfo.src_lat id) cs s = absurd s
      head-written (Edges.Category.meta Edges.MetaInfo.src_lon id) cs s = absurd s
      head-written (Edges.Category.meta Edges.MetaInfo.dst_idx id) cs s = absurd s
      head-written (Edges.Category.meta Edges.MetaInfo.dst_lat id) cs s = absurd s
      head-written (Edges.Category.meta Edges.MetaInfo.dst_lon id) cs s = absurd s
      head-written (Edges.Category.metric unit id) cs s =
          rw (text_eq_self id) (ap (λ o. o >>= λ value. ok (t.display_f64 value)) s)
      head-written Edges.Category.ignored cs s = refl

      write_edge_data-skip :
          (h : Edges.Category) (cs : List Edges.Category) (id : SimpleId)
          → column_of h ≢ some id
          → write_edge_data graph edge_idx metric_ids is_denormalizing (h ∷ cs) id
            ≡ write_edge_data graph edge_idx metric_ids is_denormalizing cs id
      unfolding write_edge_data
      write_edge_data-skip (Edges.Category.meta info i) cs id ne =
          rw (text_eq_ne i id (λ e. ne (ap some e))) refl
      write_edge_data-skip (Edges.Category.metric unit i) cs id ne =
          rw (text_eq_ne i id (λ e. ne (ap some e))) refl
      write_edge_data-skip Edges.Category.ignored cs id ne = refl

      -- The line is the columns with a space between each two.
      pub write_edge_data-join :
          (cs : List Edges.Category)
          → AreDistinct (ids_by column_of cs)
          → All IsWritable cs
          → write_row
              (write_edge_data graph edge_idx metric_ids is_denormalizing cs)
              (map column_of cs)
            ≡ ok (join (map (edge_text d) cs))
      write_edge_data-join cs distinct s =
          write_row-lookup column_of (edge_text d)
            (write_edge_data graph edge_idx metric_ids is_denormalizing) IsWritable head-written
            write_edge_data-skip cs distinct s

    -- Every column is a word.
    edge_text-IsWord : RoundTrips t → (c : Edges.Category) → IsWritable c → IsWord (edge_text d c)
    unfolding is_whitespace
    edge_text-IsWord r (Edges.Category.meta Edges.MetaInfo.edge_id id) s =
        id_text-IsWord d.id s.0 s.1
    edge_text-IsWord r (Edges.Category.meta Edges.MetaInfo.src_id id) s =
        display_i64-IsWord d.src_id
    edge_text-IsWord r (Edges.Category.meta Edges.MetaInfo.dst_id id) s =
        display_i64-IsWord d.dst_id
    edge_text-IsWord r (Edges.Category.meta Edges.MetaInfo.shortcut_idx_0 id) s =
        first_half-IsWord d.sc_edges
    edge_text-IsWord r (Edges.Category.meta Edges.MetaInfo.shortcut_idx_1 id) s =
        second_half-IsWord d.sc_edges
    edge_text-IsWord r (Edges.Category.meta Edges.MetaInfo.src_idx id) s = absurd s
    edge_text-IsWord r (Edges.Category.meta Edges.MetaInfo.src_lat id) s = absurd s
    edge_text-IsWord r (Edges.Category.meta Edges.MetaInfo.src_lon id) s = absurd s
    edge_text-IsWord r (Edges.Category.meta Edges.MetaInfo.dst_idx id) s = absurd s
    edge_text-IsWord r (Edges.Category.meta Edges.MetaInfo.dst_lat id) s = absurd s
    edge_text-IsWord r (Edges.Category.meta Edges.MetaInfo.dst_lon id) s = absurd s
    edge_text-IsWord r (Edges.Category.metric unit id) s = r.display_f64-IsWord (d.value id)
    edge_text-IsWord r Edges.Category.ignored s = ((λ h. cc), (refl, tt))

    pub edge_text-IsPlain :
        RoundTrips t → (c : Edges.Category) → IsWritable c → IsPlain (edge_text d c)
    edge_text-IsPlain r (Edges.Category.meta Edges.MetaInfo.edge_id id) s =
        id_text-IsPlain d.id s.0 s.1
    edge_text-IsPlain r (Edges.Category.meta Edges.MetaInfo.src_id id) s =
        display_i64-IsPlain d.src_id
    edge_text-IsPlain r (Edges.Category.meta Edges.MetaInfo.dst_id id) s =
        display_i64-IsPlain d.dst_id
    edge_text-IsPlain r (Edges.Category.meta Edges.MetaInfo.shortcut_idx_0 id) s =
        first_half-IsPlain d.sc_edges
    edge_text-IsPlain r (Edges.Category.meta Edges.MetaInfo.shortcut_idx_1 id) s =
        second_half-IsPlain d.sc_edges
    edge_text-IsPlain r (Edges.Category.meta _ id) s = absurd s
    edge_text-IsPlain r (Edges.Category.metric unit id) s = r.display_f64-IsPlain (d.value id)
    edge_text-IsPlain r Edges.Category.ignored s = refl

    pub edge_texts-AreWords :
        RoundTrips t
        → (cs : List Edges.Category) → All IsWritable cs
        → All IsWord (map (edge_text d) cs)
    edge_texts-AreWords r [] s = tt
    edge_texts-AreWords r (c ∷ cs) s = (edge_text-IsWord r c s.0, edge_texts-AreWords r cs s.1)
