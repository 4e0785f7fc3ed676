-- ===== src/Parsing/EdgeLine/RoundTrip.antt =====
-- The loop over the columns of a written edge sets what the edge holds.
use osmgraphing.Prelude.{
  ℕ, suc, ◌≡◌, refl, sym, ap, ◌∙◌, true, false, Bool, Option, none, some, List, [], ◌∷◌, ◌++◌, map,
  All, arith, length, length-append, if◌then◌else◌,
}
use mathlib.Core.List.{append_assoc, append-nil}
use osmgraphing.Rust.Outcome.{ok, ◌>>=◌}
use osmgraphing.Rust.Float.{FloatText, RoundTrips}
use osmgraphing.Network.Graph.{EdgeIdx}
use osmgraphing.Network.Street.Text.{Text}
use osmgraphing.Configs.Edges
use osmgraphing.Parsing.Config.{any, count_if}
use osmgraphing.Parsing.NodeLine.RoundTrip.{get_elem?-behind}
use osmgraphing.Parsing.EdgeLine.{EdgeData, read_edge_param, read_edge_params}
use osmgraphing.Parsing.EdgeLine.Params.{
  half_or, parse_edge_id-id_text, parse_src_id-display, parse_dst_id-display,
  parse_sc_edge-first_half, parse_sc_edge-second_half,
}
use osmgraphing.Parsing.EdgeLine.Columns.{
  is_edge_id, is_src_id, is_dst_id, is_first_half, is_second_half, metric_ids_of, EdgeFits, AreOnce,
  CanBeParsed, less_once, set_once, half_or_once,
}
use osmgraphing.Writing.EdgeLine.Columns.{EdgeValues, edge_text}

half_or-twice :
    (half : EdgeIdx × EdgeIdx → EdgeIdx) (sc_edges : Option (EdgeIdx × EdgeIdx)) (o : Option ℕ)
    (b : Bool)
    → (if b then half_or half sc_edges (half_or half sc_edges o) else half_or half sc_edges o)
      ≡ half_or half sc_edges o
half_or-twice half none o true = refl
half_or-twice half none o false = refl
half_or-twice half (some p) o true = refl
half_or-twice half (some p) o false = refl

module _ {F : Type 0} ⦃t : FloatText F⦄ (d : EdgeValues F) where
  -- What a category's column sets.
  abbrev pub set_by : Edges.Category → EdgeData F → EdgeData F
  set_by (Edges.Category.meta Edges.MetaInfo.edge_id id) r = record r { edge_id = d.id }
  set_by (Edges.Category.meta Edges.MetaInfo.src_id id) r = record r { src_id = some d.src_id }
  set_by (Edges.Category.meta Edges.MetaInfo.dst_id id) r = record r { dst_id = some d.dst_id }
  set_by (Edges.Category.meta Edges.MetaInfo.shortcut_idx_0 id) r = record r {
    sc_edge_0 = half_or (λ p. p.0) d.sc_edges r.sc_edge_0;
  }
  set_by (Edges.Category.meta Edges.MetaInfo.shortcut_idx_1 id) r = record r {
    sc_edge_1 = half_or (λ p. p.1) d.sc_edges r.sc_edge_1;
  }
  set_by (Edges.Category.meta _ id) r = r
  set_by (Edges.Category.metric unit id) r = record r {
    metric_values = r.metric_values ++ d.value id ∷ [];
  }
  set_by Edges.Category.ignored r = r

  -- What all columns set.
  abbrev pub all_set : List Edges.Category → EdgeData F → EdgeData F
  all_set cs r = record {
    metric_values = r.metric_values ++ map d.value (metric_ids_of cs);
    edge_id = if any is_edge_id cs then d.id else r.edge_id;
    src_id = if any is_src_id cs then some d.src_id else r.src_id;
    dst_id = if any is_dst_id cs then some d.dst_id else r.dst_id;
    sc_edge_0 =
        if any is_first_half cs then half_or (λ p. p.0) d.sc_edges r.sc_edge_0 else r.sc_edge_0;
    sc_edge_1 =
        if any is_second_half cs then half_or (λ p. p.1) d.sc_edges r.sc_edge_1 else r.sc_edge_1;
  }

  all_set-cons :
      (c : Edges.Category) (cs : List Edges.Category) (r : EdgeData F)
      → all_set cs (set_by c r) ≡ all_set (c ∷ cs) r
  all_set-cons (Edges.Category.meta Edges.MetaInfo.edge_id id) cs r = ground arith
  all_set-cons (Edges.Category.meta Edges.MetaInfo.src_id id) cs r = ground arith
  all_set-cons (Edges.Category.meta Edges.MetaInfo.dst_id id) cs r = ground arith
  all_set-cons (Edges.Category.meta Edges.MetaInfo.shortcut_idx_0 id) cs r =
      rw (half_or-twice (λ p. p.0) d.sc_edges r.sc_edge_0 (any is_first_half cs)) refl
  all_set-cons (Edges.Category.meta Edges.MetaInfo.shortcut_idx_1 id) cs r =
      rw (half_or-twice (λ p. p.1) d.sc_edges r.sc_edge_1 (any is_second_half cs)) refl
  all_set-cons (Edges.Category.meta _ id) cs r = refl
  all_set-cons (Edges.Category.metric unit id) cs r =
      rw (append_assoc r.metric_values (d.value id ∷ []) (map d.value (metric_ids_of cs))) refl
  all_set-cons Edges.Category.ignored cs r = refl

  set_by-AreOnce :
      (c : Edges.Category) (cs : List Edges.Category) (r : EdgeData F)
      → AreOnce r (c ∷ cs)
      → AreOnce (set_by c r) cs
  set_by-AreOnce (Edges.Category.meta Edges.MetaInfo.src_id id) cs r once = record {
    src_once = set_once r.src_id d.src_id (count_if is_src_id cs) once.src_once;
    dst_once = less_once r.dst_id 0 (count_if is_dst_id cs) once.dst_once;
    first_once = less_once r.sc_edge_0 0 (count_if is_first_half cs) once.first_once;
    second_once = less_once r.sc_edge_1 0 (count_if is_second_half cs) once.second_once;
  }
  set_by-AreOnce (Edges.Category.meta Edges.MetaInfo.dst_id id) cs r once = record {
    src_once = less_once r.src_id 0 (count_if is_src_id cs) once.src_once;
    dst_once = set_once r.dst_id d.dst_id (count_if is_dst_id cs) once.dst_once;
    first_once = less_once r.sc_edge_0 0 (count_if is_first_half cs) once.first_once;
    second_once = less_once r.sc_edge_1 0 (count_if is_second_half cs) once.second_once;
  }
  set_by-AreOnce (Edges.Category.meta Edges.MetaInfo.shortcut_idx_0 id) cs r once = record {
    src_once = less_once r.src_id 0 (count_if is_src_id cs) once.src_once;
    dst_once = less_once r.dst_id 0 (count_if is_dst_id cs) once.dst_once;
    first_once =
        half_or_once (λ p. p.0) d.sc_edges r.sc_edge_0 (count_if is_first_half cs) once.first_once;
    second_once = less_once r.sc_edge_1 0 (count_if is_second_half cs) once.second_once;
  }
  set_by-AreOnce (Edges.Category.meta Edges.MetaInfo.shortcut_idx_1 id) cs r once = record {
    src_once = less_once r.src_id 0 (count_if is_src_id cs) once.src_once;
    dst_once = less_once r.dst_id 0 (count_if is_dst_id cs) once.dst_once;
    first_once = less_once r.sc_edge_0 0 (count_if is_first_half cs) once.first_once;
    second_once =
        half_or_once (λ p. p.1) d.sc_edges r.sc_edge_1 (count_if is_second_half cs)
          once.second_once;
  }
  set_by-AreOnce (Edges.Category.meta _ id) cs r once = record {
    src_once = less_once r.src_id 0 (count_if is_src_id cs) once.src_once;
    dst_once = less_once r.dst_id 0 (count_if is_dst_id cs) once.dst_once;
    first_once = less_once r.sc_edge_0 0 (count_if is_first_half cs) once.first_once;
    second_once = less_once r.sc_edge_1 0 (count_if is_second_half cs) once.second_once;
  }
  set_by-AreOnce (Edges.Category.metric unit id) cs r once = record {
    src_once = less_once r.src_id 0 (count_if is_src_id cs) once.src_once;
    dst_once = less_once r.dst_id 0 (count_if is_dst_id cs) once.dst_once;
    first_once = less_once r.sc_edge_0 0 (count_if is_first_half cs) once.first_once;
    second_once = less_once r.sc_edge_1 0 (count_if is_second_half cs) once.second_once;
  }
  set_by-AreOnce Edges.Category.ignored cs r once = record {
    src_once = less_once r.src_id 0 (count_if is_src_id cs) once.src_once;
    dst_once = less_once r.dst_id 0 (count_if is_dst_id cs) once.dst_once;
    first_once = less_once r.sc_edge_0 0 (count_if is_first_half cs) once.first_once;
    second_once = less_once r.sc_edge_1 0 (count_if is_second_half cs) once.second_once;
  }

  module _ (texts : RoundTrips t) (fits : EdgeFits d) where
    read_edge_param-text :
        (c : Edges.Category) (cs : List Edges.Category) (i : ℕ) (r : EdgeData F)
        → CanBeParsed d.id c
        → AreOnce r (c ∷ cs)
        → read_edge_param c i (edge_text d c) r ≡ ok (set_by c r)
    unfolding read_edge_param
    read_edge_param-text (Edges.Category.meta Edges.MetaInfo.edge_id id) cs i r (n, e) once =
        ap (λ o. o >>= λ id. ok (record r { edge_id = some id }))
          (parse_edge_id-id_text i d.id n fits.id_fits e)
        ∙ ap (λ o. ok (record r { edge_id = o })) (sym e)
    read_edge_param-text (Edges.Category.meta Edges.MetaInfo.src_id id) cs i r s once =
        ap (λ o. o >>= λ id. ok (record r { src_id = id }))
          (parse_src_id-display d.src_id r.src_id (count_if is_src_id cs) fits.src_fits
            once.src_once)
    read_edge_param-text (Edges.Category.meta Edges.MetaInfo.dst_id id) cs i r s once =
        ap (λ o. o >>= λ id. ok (record r { dst_id = id }))
          (parse_dst_id-display d.dst_id r.dst_id (count_if is_dst_id cs) fits.dst_fits
            once.dst_once)
    read_edge_param-text (Edges.Category.meta Edges.MetaInfo.shortcut_idx_0 id) cs i r s once =
        ap (λ o. o >>= λ sc. ok (record r { sc_edge_0 = sc }))
          (parse_sc_edge-first_half i d.sc_edges r.sc_edge_0 (count_if is_first_half cs)
            fits.halves_fit once.first_once)
    read_edge_param-text (Edges.Category.meta Edges.MetaInfo.shortcut_idx_1 id) cs i r s once =
        ap (λ o. o >>= λ sc. ok (record r { sc_edge_1 = sc }))
          (parse_sc_edge-second_half i d.sc_edges r.sc_edge_1 (count_if is_second_half cs)
            fits.halves_fit once.second_once)
    read_edge_param-text (Edges.Category.meta Edges.MetaInfo.src_idx id) cs i r s once = absurd s
    read_edge_param-text (Edges.Category.meta Edges.MetaInfo.src_lat id) cs i r s once = absurd s
    read_edge_param-text (Edges.Category.meta Edges.MetaInfo.src_lon id) cs i r s once = absurd s
    read_edge_param-text (Edges.Category.meta Edges.MetaInfo.dst_idx id) cs i r s once = absurd s
    read_edge_param-text (Edges.Category.meta Edges.MetaInfo.dst_lat id) cs i r s once = absurd s
    read_edge_param-text (Edges.Category.meta Edges.MetaInfo.dst_lon id) cs i r s once = absurd s
    read_edge_param-text (Edges.Category.metric unit id) cs i r s once =
        rw (texts.parse_f64-display (d.value id)) refl
    read_edge_param-text Edges.Category.ignored cs i r s once = refl

    pub read_edge_params-texts :
        (front : List Text) (cs : List Edges.Category) (r : EdgeData F)
        → All (CanBeParsed d.id) cs
        → AreOnce r cs
        → read_edge_params (front ++ map (edge_text d) cs) (length front) cs r ≡ ok (all_set cs r)
    unfolding read_edge_params
    read_edge_params-texts front [] r s once =
        ap (λ values. ok (record r { metric_values = values })) (sym (append-nil r.metric_values))
    read_edge_params-texts front (c ∷ cs) r s once =
        let text = edge_text d c in
        let rest = map (edge_text d) cs in
        let params = front ++ text ∷ rest in
        let ih =
          read_edge_params-texts (front ++ text ∷ []) cs (set_by c r) s.1
            (set_by-AreOnce c cs r once) in
        let same : (front ++ text ∷ []) ++ rest ≡ params = append_assoc front (text ∷ []) rest in
        let next : length (front ++ text ∷ []) ≡ suc (length front) =
          omega (arith, length-append front (text ∷ [])) in
        rw (get_elem?-behind front text rest) (
          rw (read_edge_param-text c cs (length front) r s.0 once)
            (rw (same, next) at ih ∙ ap ok (all_set-cons c cs r)))
