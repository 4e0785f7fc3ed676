-- ===== src/Parsing/Config/Cases.antt =====
-- Which configurations pass the check.
use osmgraphing.Prelude.{ℕ, ◌+◌, ◌≤◌, ◌≡◌, ◌↔◌, ◌⊎◌, inl, inr, subst, true, length, In, arith}
use osmgraphing.Rust.Outcome.{ok}
use osmgraphing.Network.Street.Text.{Text}
use osmgraphing.Configs.Nodes
use osmgraphing.Parsing.Config.{
  Config, any, count_if, is_node_id, is_latitude, is_longitude, is_shortcut_idx, generated_dims,
  check_config,
}
use osmgraphing.Parsing.Config.Categories.{
  Counts, Counts-unique, IsShortcutIdx, any_iff, is_node_id_iff, is_latitude_iff, is_longitude_iff,
  count_if-Counts, Generates, generated_dims-Generates, Generates-unique,
}

module _ {F : Type 0} where
  -- The tests of the check.
  record Passes (capacity : ℕ) (cfg : Config F) : Type 0 where
    has_id : any is_node_id cfg.nodes.categories ≡ true
    has_latitude : any is_latitude cfg.nodes.categories ≡ true
    has_longitude : any is_longitude cfg.nodes.categories ≡ true
    dim_fits : length cfg.edges.metrics.units + generated_dims cfg.generating ≤ capacity
    shortcut_pair :
        (count_if is_shortcut_idx cfg.edges.categories ≡ 0)
        ⊎ (count_if is_shortcut_idx cfg.edges.categories ≡ 2)

  check_config-Passes :
      (capacity : ℕ) (cfg : Config F) → (check_config capacity cfg ≡ ok tt) ↔ Passes capacity cfg
  unfolding check_config
  check_config-Passes capacity cfg = ground arith

  -- What a configuration must have.
  pub record IsComplete (capacity : ℕ) (cfg : Config F) : Type 0 where
    pub has_id :
        (id : Text) × In (Nodes.Category.meta Nodes.MetaInfo.node_id id) cfg.nodes.categories
    pub has_latitude :
        (id : Text) × In (Nodes.Category.metric Nodes.UnitInfo.latitude id) cfg.nodes.categories
    pub has_longitude :
        (id : Text) × In (Nodes.Category.metric Nodes.UnitInfo.longitude id) cfg.nodes.categories
    pub dim_fits :
        (n : ℕ) × Generates cfg.generating n × (length cfg.edges.metrics.units + n ≤ capacity)
    pub shortcut_pair :
        Counts IsShortcutIdx cfg.edges.categories 0 ⊎ Counts IsShortcutIdx cfg.edges.categories 2

  Passes-IsComplete :
      (capacity : ℕ) (cfg : Config F) → Passes capacity cfg → IsComplete capacity cfg
  Passes-IsComplete capacity cfg p =
      let nodes = cfg.nodes.categories in
      let edges = cfg.edges.categories in
      record {
        has_id = (any_iff is_node_id _ is_node_id_iff nodes).0 p.has_id;
        has_latitude = (any_iff is_latitude _ is_latitude_iff nodes).0 p.has_latitude;
        has_longitude = (any_iff is_longitude _ is_longitude_iff nodes).0 p.has_longitude;
        dim_fits =
            (generated_dims cfg.generating, generated_dims-Generates cfg.generating, p.dim_fits);
        shortcut_pair = elim p.shortcut_pair [
          | inl e ↦ inl (subst (Counts IsShortcutIdx edges) e (count_if-Counts edges))
          | inr e ↦ inr (subst (Counts IsShortcutIdx edges) e (count_if-Counts edges))
        ];
      }

  IsComplete-Passes :
      (capacity : ℕ) (cfg : Config F) → IsComplete capacity cfg → Passes capacity cfg
  IsComplete-Passes capacity cfg h =
      let nodes = cfg.nodes.categories in
      let edges = cfg.edges.categories in
      let counted = Counts-unique IsShortcutIdx edges (count_if is_shortcut_idx edges) in
      let (n, generates, fits) = h.dim_fits in
      let same =
        Generates-unique cfg.generating (generated_dims cfg.generating) n
          (generated_dims-Generates cfg.generating) generates in
      record {
        has_id = (any_iff is_node_id _ is_node_id_iff nodes).1 h.has_id;
        has_latitude = (any_iff is_latitude _ is_latitude_iff nodes).1 h.has_latitude;
        has_longitude = (any_iff is_longitude _ is_longitude_iff nodes).1 h.has_longitude;
        dim_fits = omega (arith, same, fits);
        shortcut_pair = elim h.shortcut_pair [
          | inl c ↦ inl (counted 0 (count_if-Counts edges) c)
          | inr c ↦ inr (counted 2 (count_if-Counts edges) c)
        ];
      }

  -- The check of the configuration succeeds exactly if the nodes have a category for the id, one
  -- for the latitude and one for the longitude, the metrics and the custom, haversine, copied and
  -- calculated categories that are to be generated are together no more than the parser is
  -- compiled to, and the edges have no category or two categories for shortcut-indices.
  pub check_config_iff :
      (capacity : ℕ) (cfg : Config F)
      → (check_config capacity cfg ≡ ok tt) ↔ IsComplete capacity cfg
  check_config_iff capacity cfg =
      let (passes, checks) = check_config-Passes capacity cfg in
      (
        λ e. Passes-IsComplete capacity cfg (passes e),
        λ h. checks (IsComplete-Passes capacity cfg h),
      )
