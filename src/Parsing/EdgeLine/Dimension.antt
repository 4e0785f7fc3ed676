-- ===== src/Parsing/EdgeLine/Dimension.antt =====
-- A parsed edge has a metric for each column of metrics.
use osmgraphing.Prelude.{
  ℕ, suc, ◌+◌, ◌≡◌, sym, ap, ◌∙◌, List, [], ◌∷◌, length, length-append, get_elem?, arith,
}
use osmgraphing.Rust.Outcome.{
  Outcome, ok, ok_or, ok_inj, ◌>>=◌, returned, too_few_edge_params, no_src_id, no_dst_id,
  unparsed_edge_param,
}
use osmgraphing.Rust.Words.{split_whitespace}
use osmgraphing.Rust.Float.{FloatText}
use osmgraphing.Network.Street.Text.{Text}
use osmgraphing.Configs.Edges
use osmgraphing.Building.Protos.{ProtoShortcut}
use osmgraphing.Parsing.EdgeLine.{
  EdgeData, no_edge_data, parse_edge_id, parse_src_id, parse_dst_id, parse_sc_edge, read_edge_param,
  read_edge_params, proto_shortcut, try_from_str,
}
use osmgraphing.Parsing.EdgeLine.Columns.{metric_ids_of}

length-set_by :
    {X F : Type 0} (o : Outcome X) (next : X → EdgeData F) (r : EdgeData F) (n : ℕ)
    → ((x : X) → length (next x).metric_values ≡ n)
    → (o >>= λ x. ok (next x)) ≡ ok r
    → length r.metric_values ≡ n
length-set_by o next r n same h =
    let (x, h', e) = returned r o (λ x. ok (next x)) h in
    ap (λ s. length s.metric_values) (sym (ok_inj h')) ∙ same x

length-metric_ids_of :
    (c : Edges.Category) (cs : List Edges.Category)
    → length (metric_ids_of (c ∷ cs)) ≡ length (metric_ids_of (c ∷ [])) + length (metric_ids_of cs)
length-metric_ids_of (Edges.Category.meta info id) cs = omega arith
length-metric_ids_of (Edges.Category.metric unit id) cs = omega arith
length-metric_ids_of Edges.Category.ignored cs = omega arith

module _ {F : Type 0} ⦃t : FloatText F⦄ where
  read_edge_param-length :
      (c : Edges.Category) (i : ℕ) (param : Text) (r r' : EdgeData F)
      → read_edge_param c i param r ≡ ok r'
      → length r'.metric_values ≡ length r.metric_values + length (metric_ids_of (c ∷ []))
  unfolding read_edge_param
  read_edge_param-length (Edges.Category.meta Edges.MetaInfo.edge_id id) i param r r' h =
      length-set_by (parse_edge_id i param) _ r' _ (λ x. omega arith) h
  read_edge_param-length (Edges.Category.meta Edges.MetaInfo.src_id id) i param r r' h =
      length-set_by (parse_src_id param r.src_id) _ r' _ (λ x. omega arith) h
  read_edge_param-length (Edges.Category.meta Edges.MetaInfo.dst_id id) i param r r' h =
      length-set_by (parse_dst_id param r.dst_id) _ r' _ (λ x. omega arith) h
  read_edge_param-length (Edges.Category.meta Edges.MetaInfo.shortcut_idx_0 id) i param r r' h =
      length-set_by (parse_sc_edge i param r.sc_edge_0) _ r' _ (λ x. omega arith) h
  read_edge_param-length (Edges.Category.meta Edges.MetaInfo.shortcut_idx_1 id) i param r r' h =
      length-set_by (parse_sc_edge i param r.sc_edge_1) _ r' _ (λ x. omega arith) h
  read_edge_param-length (Edges.Category.meta _ id) i param r r' h = absurd (cc)
  read_edge_param-length (Edges.Category.metric unit id) i param r r' h =
      length-set_by (ok_or (t.parse_f64 param) (unparsed_edge_param param i)) _ r' _
        (λ x. length-append r.metric_values (x ∷ [])) h
  read_edge_param-length Edges.Category.ignored i param r r' h =
      ap (λ s. length s.metric_values) (sym (ok_inj h)) ∙ omega arith

  read_edge_params-length :
      (params : List Text) (i : ℕ) (cs : List Edges.Category) (r r' : EdgeData F)
      → read_edge_params params i cs r ≡ ok r'
      → length r'.metric_values ≡ length r.metric_values + length (metric_ids_of cs)
  unfolding read_edge_params
  read_edge_params-length params i [] r r' h =
      ap (λ s. length s.metric_values) (sym (ok_inj h)) ∙ omega arith
  read_edge_params-length params i (c ∷ cs) r r' h =
      let rest = λ (s : EdgeData F). read_edge_params params (suc i) cs s in
      let (param, h', e) =
        returned r' (ok_or (get_elem? params i) (too_few_edge_params i (length params)))
          (λ param. read_edge_param c i param r >>= rest) h in
      let (s, later, one) = returned r' (read_edge_param c i param r) rest h' in
      omega (
        arith,
        read_edge_params-length params (suc i) cs s r' later,
        read_edge_param-length c i param r s one,
        length-metric_ids_of c cs,
      )

  pub try_from_str-length :
      (line : Text) (cs : List Edges.Category) (p : ProtoShortcut F)
      → try_from_str line cs ≡ ok p
      → length p.proto_edge.metrics ≡ length (metric_ids_of cs)
  unfolding try_from_str proto_shortcut
  try_from_str-length line cs p h =
      let (r, h', e) =
        returned p (read_edge_params (split_whitespace line) 0 cs no_edge_data) proto_shortcut h in
      let (src, h'', e') = returned p (ok_or r.src_id no_src_id) _ h' in
      let (dst, h3, e'') = returned p (ok_or r.dst_id no_dst_id) _ h'' in
      let same = ap (λ q. length q.proto_edge.metrics) (ok_inj h3) in
      omega (arith, read_edge_params-length (split_whitespace line) 0 cs no_edge_data r e, same)
