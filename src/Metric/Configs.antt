-- ===== src/Metric/Configs.antt =====
-- `normalizeMetricPrometheusConfigs` of static/js/ops-vue-pages.js.
use centos_info_collect.Base.{
  ◌≡◌, refl, true, false, ◌||◌, List, [], ◌∷◌, ◌++◌, Text, codes, trim, null, elem, elem-snoc,
  distinct, distinct-snoc, All, All-append, map-append, ℕ_eq, list_eq, if◌then◌else◌, arith, map,
  ◌⊎◌, inl, inr, list_beq_iff,
}
use centos_info_collect.Metric.Values.{
  Number, Value, array_or_empty, property, truthy, string_or_empty, normalize_metric_prometheus_id,
}

pub record PrometheusConfig : Type 0 where
  pub id : Text
  pub name : Text

abbrev pub ids : List PrometheusConfig → List Text
ids items = map (λ c. c.id) items

abbrev pub config_name : Value → Text
config_name v = if truthy v then trim (string_or_empty (property (codes "name") v)) else []

module _ (convert : Value → Number) where
  abbrev pub config_id : Value → Text
  config_id v =
      normalize_metric_prometheus_id convert (if truthy v then property (codes "id") v else v)

  unfoldable pub add_config : List PrometheusConfig → Value → List PrometheusConfig
  add_config items v =
      let id = config_id v in
      let name = config_name v in
      if null id || null name || elem id (ids items)
      then items
      else items ++ record { id = id; name = name } ∷ []

  unfoldable pub add_configs : List PrometheusConfig → List Value → List PrometheusConfig
  unfolding add_config
  add_configs items [] = items
  add_configs items (v ∷ vs) = add_configs (add_config items v) vs

  abbrev pub normalize_metric_prometheus_configs : Value → List PrometheusConfig
  normalize_metric_prometheus_configs v = add_configs [] (array_or_empty v)

  abbrev pub IsNamed : PrometheusConfig → Type 0
  IsNamed c = (null c.id ≡ false) × (null c.name ≡ false)

  -- The identifiers are distinct, and no identifier and no name is empty.
  abbrev pub IsClean : List PrometheusConfig → Type 0
  IsClean items = (distinct (ids items) ≡ true) × All IsNamed items

  ids-snoc :
      (c : PrometheusConfig) (items : List PrometheusConfig)
      → ids (items ++ c ∷ []) ≡ ids items ++ c.id ∷ []
  ids-snoc c items = map-append (λ k. k.id) items (c ∷ [])

  -- what `reduce` appends for `v`
  abbrev config : Value → PrometheusConfig
  config v = record { id = config_id v; name = config_name v }

  snoc-IsClean :
      (c : PrometheusConfig) (items : List PrometheusConfig)
      → IsNamed c
      → elem c.id (ids items) ≡ false
      → IsClean items
      → IsClean (items ++ c ∷ [])
  snoc-IsClean c items k a (d, n) = (
    ground (arith, ids-snoc c items, distinct-snoc c.id (ids items)),
    All-append IsNamed items (c ∷ []) n (k, tt),
  )

  add_config-cases :
      (v : Value) (items : List PrometheusConfig)
      → (add_config items v ≡ items)
        ⊎ ((add_config items v ≡ items ++ config v ∷ [])
            × (IsNamed (config v) × (elem (config_id v) (ids items) ≡ false)))
  unfolding add_config
  add_config-cases v items = ground arith

  add_config-IsClean :
      (v : Value) (items : List PrometheusConfig) → IsClean items → IsClean (add_config items v)
  add_config-IsClean v items c = elim (add_config-cases v items) [
    | inl e ↦ rw e c
    | inr (e, (k, a)) ↦ rw e (snoc-IsClean (config v) items k a c)
  ]

  add_configs-IsClean :
      (vs : List Value) (items : List PrometheusConfig)
      → IsClean items
      → IsClean (add_configs items vs)
  unfolding add_configs
  add_configs-IsClean [] items c = c
  add_configs-IsClean (v ∷ vs) items c =
      add_configs-IsClean vs (add_config items v) (add_config-IsClean v items c)

  -- the identifiers that the elements with an identifier and a name have
  abbrev pub offered : List Value → List Text
  offered [] = []
  offered (v ∷ vs) =
      if null (config_id v) || null (config_name v) then offered vs else config_id v ∷ offered vs

  add_configs-elem :
      (vs : List Value) (items : List PrometheusConfig) (id : Text)
      → elem id (ids (add_configs items vs)) ≡ (elem id (ids items) || elem id (offered vs))
  unfolding add_configs add_config elem
  add_configs-elem [] items id = ground arith
  add_configs-elem (v ∷ vs) items id = ground (
    arith,
    add_configs-elem vs (add_config items v) id,
    ids-snoc (config v) items,
    elem-snoc id (config_id v) (ids items),
    list_beq_iff (config_id v) id,
  )

  -- Of what the server sends as connections, the list that is kept has distinct identifiers, none
  -- of them and no name empty, and it has an identifier if and only if some element has that
  -- identifier, not empty, and a name that is not empty when it is trimmed.
  pub normalize_metric_prometheus_configs-IsClean :
      (v : Value) (id : Text)
      → IsClean (normalize_metric_prometheus_configs v)
        × (elem id (ids (normalize_metric_prometheus_configs v))
            ≡ elem id (offered (array_or_empty v)))
  unfolding distinct elem
  normalize_metric_prometheus_configs-IsClean v id = (
    add_configs-IsClean (array_or_empty v) [] (refl, tt),
    add_configs-elem (array_or_empty v) [] id,
  )
