-- ===== src/Metric/Integrations.antt =====
-- The lists of integrations in static/js/ops-vue-pages.js: `normalizeMonitorIntegrationHealth`,
-- `normalizeMonitorIntegrationList`, `monitorIntegrationList`,
-- `normalizeAlertNotificationIntegrations` and `selectedMonitorIntegration`.
use centos_info_collect.Base.{
  ℕ, suc, Bool, true, false, not, ◌&&◌, ◌||◌, Option, none, some, List, [], ◌∷◌, ◌++◌, Text, codes,
  null, trim, elem, find, select, map, length, tally, ltb, ◌==◌, ℕ_eq, list_eq, if◌then◌else◌,
}
use centos_info_collect.Metric.Decimals.{to_text}
use centos_info_collect.Metric.Values.{
  Number, Value, string, array, property, truthy, array_or_empty, is_record, string_or_empty,
  safe_natural, to_number, normalize_metric_prometheus_id,
}
pub mod Named
pub mod Tests

pub data State : Type 0 where
  success : State
  failed : State
  unknown : State

pub record Health : Type 0 where
  pub state : State
  pub last_checked_at : Text
  pub category : Text
  pub summary : Text
  pub consecutive_failures : ℕ
  pub recent_failures : ℕ
  pub recent_successes : ℕ

pub record Integration : Type 0 where
  pub id : Text
  pub kind : Text
  pub name : Text
  pub url : Text
  pub enabled : Bool
  pub health : Health
  pub updated_at : Text
  pub edit_url : Text
  pub delete_url : Text

pub record Notifier : Type 0 where
  pub id : Text
  pub provider : Text
  pub provider_label : Text
  pub name : Text
  pub alert_name : Text
  pub alert_type : Text
  pub enabled : Bool
  pub configured : Bool

-- `typeof value.key === 'string' ? value.key : ''`
abbrev pub text_of : Text → Value → Text
text_of key v = string_or_empty (property key v)

abbrev pub state_of : Text → State
state_of s =
    if s == codes "success" then success else if s == codes "failed" then failed else unknown

abbrev pub state_label : State → Text
state_label success = codes "正常"
state_label failed = codes "失败"
state_label unknown = codes "未检测"

-- `typeof integration.kind === 'string' ? integration.kind : expectedKind`
abbrev pub kind_of : Text → Value → Text
kind_of expected (string s) = s
kind_of expected v = expected

abbrev pub kind_label : Text → Text
kind_label kind = if kind == codes "prometheus" then codes "Prometheus" else codes "Alertmanager"

abbrev pub or_text : Text → Text → Text
or_text s t = if null s then t else s

abbrev pub name_of : Text → Value → Text
name_of expected v = or_text (trim (text_of (codes "name") v)) (kind_label expected)

abbrev pub ids : List Integration → List Text
ids items = map (λ (i : Integration). i.id) items

module _ (convert : Value → Number) where
  abbrev pub safe_count : Value → ℕ
  safe_count v = elim (safe_natural (to_number convert v)) [ none ↦ 0 | some n ↦ n ]

  -- The properties of a value that is no object are missing.
  unfoldable pub normalize_monitor_integration_health : Value → Health
  normalize_monitor_integration_health v = record {
    state = state_of (text_of (codes "state") v);
    last_checked_at = text_of (codes "last_checked_at") v;
    category = text_of (codes "category") v;
    summary = text_of (codes "summary") v;
    consecutive_failures = safe_count (property (codes "consecutive_failures") v);
    recent_failures = safe_count (property (codes "recent_failures") v);
    recent_successes = safe_count (property (codes "recent_successes") v);
  }

  abbrev pub id_of : Value → Text
  id_of v = normalize_metric_prometheus_id convert (property (codes "id") v)

  abbrev pub integration : Text → Value → Integration
  unfolding normalize_monitor_integration_health
  integration expected v = record {
    id = id_of v;
    kind = kind_of expected (property (codes "kind") v);
    name = name_of expected v;
    url = trim (text_of (codes "url") v);
    enabled = truthy (property (codes "enabled") v);
    health = normalize_monitor_integration_health (property (codes "health") v);
    updated_at = text_of (codes "updated_at") v;
    edit_url = text_of (codes "edit_url") v;
    delete_url = text_of (codes "delete_url") v;
  }

  -- The guards of `reduce`; `items` are those that were pushed before.
  abbrev pub is_kept : Text → List Integration → Value → Bool
  is_kept expected items v =
      is_record v
      && not (null (id_of v))
      && not (elem (id_of v) (ids items))
      && kind_of expected (property (codes "kind") v) == expected

  unfoldable pub add_integrations : Text → List Integration → List Value → List Integration
  unfolding integration
  add_integrations expected items [] = items
  add_integrations expected items (v ∷ vs) =
      let next = if is_kept expected items v then items ++ integration expected v ∷ [] else items in
      add_integrations expected next vs

abbrev pub is_array : Value → Bool
is_array (array vs) = true
is_array v = false

-- the integrations of one kind in a list of both
abbrev pub of_kind : Text → List Value → List Value
of_kind kind vs =
    select (λ v. elim (property (codes "kind") v) [ string s ↦ s == kind | _ ↦ false ]) vs

-- The names that every object has from its prototype: under them the record of counts holds no
-- number, and no test of a count succeeds.
abbrev pub inherited : List Text
inherited =
    codes "constructor"
    ∷ codes "toString"
    ∷ codes "valueOf"
    ∷ codes "hasOwnProperty"
    ∷ codes "isPrototypeOf"
    ∷ codes "propertyIsEnumerable"
    ∷ codes "toLocaleString"
    ∷ codes "__proto__"
    ∷ codes "__defineGetter__"
    ∷ codes "__defineSetter__"
    ∷ codes "__lookupGetter__"
    ∷ codes "__lookupSetter__"
    ∷ []

abbrev pub name_count : Text → List Integration → ℕ
name_count name items = tally (λ i. i.name == name) items

-- `nameCounts[name] > 1`
abbrev pub is_repeated : List Integration → Text → Bool
is_repeated items name = ltb 1 (name_count name items) && not (elem name inherited)

unfoldable pub display_name : List Integration → Integration → Text
display_name items i =
    if is_repeated items i.name then i.name ++ (codes " (#" ++ (i.id ++ codes ")")) else i.name

module _ (convert : Value → Number) where
  unfoldable pub normalize_monitor_integration_list : Text → Value → List (Integration × Text)
  unfolding add_integrations display_name
  normalize_monitor_integration_list expected v =
      let items = add_integrations convert expected [] (array_or_empty v) in
      map (λ i. (i, display_name items i)) items

  unfoldable pub monitor_integration_list : Text → Text → Value → List (Integration × Text)
  unfolding add_integrations display_name
  monitor_integration_list key kind page =
      let own = property key page in
      let chosen =
        if is_array own
        then array_or_empty own
        else of_kind kind (array_or_empty (property (codes "integrations") page)) in
      let items = add_integrations convert kind [] chosen in
      map (λ i. (i, display_name items i)) items

  -- `Number.isSafeInteger(id) && id > 0 ? String(id) : provider + '-' + items.length`
  abbrev pub notifier_id : Text → ℕ → Value → Text
  notifier_id provider count v =
      let text = normalize_metric_prometheus_id convert (property (codes "id") v) in
      or_text text (provider ++ (codes "-" ++ to_text count))

  abbrev pub notifier : Text → Text → ℕ → Value → Notifier
  notifier provider name count v = record {
    id = notifier_id provider count v;
    provider = provider;
    provider_label = or_text (trim (text_of (codes "provider_label") v)) provider;
    name = name;
    alert_name = trim (text_of (codes "alert_name") v);
    alert_type = trim (text_of (codes "alert_type") v);
    enabled = truthy (property (codes "enabled") v);
    configured = truthy (property (codes "configured") v);
  }

  unfoldable pub add_notifiers : List Notifier → List Value → List Notifier
  add_notifiers items [] = items
  add_notifiers items (v ∷ vs) =
      let provider = trim (text_of (codes "provider") v) in
      let name = trim (text_of (codes "name") v) in
      let next =
        if not (is_record v) || null provider || null name
        then items
        else items ++ notifier provider name (length items) v ∷ [] in
      add_notifiers next vs

  unfoldable pub normalize_alert_notification_integrations : Value → List Notifier
  unfolding add_notifiers
  normalize_alert_notification_integrations v = add_notifiers [] (array_or_empty v)

-- `selectedMonitorIntegration`
abbrev pub selected_monitor_integration : Text → List Integration → Option Integration
selected_monitor_integration id items = find (λ i. i.id == id) items
