-- ===== src/Metric/Resources.antt =====
-- The loading of Targets, Rules and Alerts in static/js/ops-vue-pages.js: `loadMetricResource`,
-- `clearMetricResource`, `changeMetricPrometheus` and `changeMetricAlertmanager`.
pub mod Requests
pub mod Late
use centos_info_collect.Base.{
  ℕ, suc, ◌+◌, Bool, true, false, not, ◌&&◌, ◌||◌, Option, none, some, List, [], ◌∷◌, ◌++◌, Text,
  codes, null, elem, pick, ◌==◌, ℕ_eq, list_eq, if◌then◌else◌,
}
use centos_info_collect.Metric.Fetch.{Outcome, type_error, failure, body}
use centos_info_collect.Metric.Values.{
  Number, Value, string, property, normalize_metric_prometheus_id,
}
use centos_info_collect.Metric.Texts.{safe_metric_resource_text}
use centos_info_collect.Metric.Rows.{ResourceData, empty_metric_resource_data}

pub data Kind : Type 0 where
  targets : Kind
  rules : Kind
  alerts : Kind

-- A call of `fetchMetricJson` that has not settled: the version and the source it was made for.
pub record Request : Type 0 where
  pub version : ℕ
  pub source : Text

-- `metricResources[kind]`
pub record ResourceState (Row : Type 0) : Type 0 where
  pub content : ResourceData Row
  pub loading : Bool
  pub loaded : Bool
  pub error : Text
  pub duration_ms : Option ℕ
  pub request_version : ℕ

-- What the component keeps for one kind. `selected` is the identifier of the source that is chosen,
-- and empty for none; `sources` are those of the connections on offer; `configured` is the flag of
-- the page's data; `filter` and `expanded` are what `resetMetricResourceUi` resets.
pub record Page (Row : Type 0) : Type 0 where
  pub state : ResourceState Row
  pub configured : Bool
  pub sources : List Text
  pub selected : Text
  pub filter : Text
  pub expanded : List ℕ
  pub in_flight : List Request

abbrev pub not_configured : Kind → Text
not_configured alerts = codes "请先配置并启用 Alertmanager 对接"
not_configured targets = codes "请先配置并启用 Prometheus 对接"
not_configured rules = codes "请先配置并启用 Prometheus 对接"

abbrev pub not_selected : Kind → Text
not_selected alerts = codes "请选择 Alertmanager 连接"
not_selected targets = codes "请选择 Prometheus 连接"
not_selected rules = codes "请选择 Prometheus 连接"

abbrev pub source_key : Kind → Text
source_key alerts = codes "alertmanager_id"
source_key targets = codes "prometheus_id"
source_key rules = codes "prometheus_id"

-- the property of the body that has the resource
abbrev pub resource_key : Kind → Text
resource_key alerts = codes "alerts"
resource_key targets = codes "targets"
resource_key rules = codes "rules"

abbrev pub mismatch : Text
mismatch = codes "指标资源来源不一致，请重新加载"

-- `safeMetricResourceText(error.message, 500) || '指标资源加载失败'`
abbrev pub error_text : Text → Text
error_text message =
    let text = safe_metric_resource_text (string message) 500 in
    if null text then codes "指标资源加载失败" else text

module _ {Row : Type 0} where
  abbrev pub empty_state : List Text → ℕ → ResourceState Row
  empty_state keys version = record {
    content = empty_metric_resource_data keys;
    loading = false;
    loaded = false;
    error = [];
    duration_ms = none;
    request_version = version;
  }

  -- `alerts` keep their expanded cells, of which there are none.
  abbrev pub reset_metric_resource_ui : Page Row → Page Row
  reset_metric_resource_ui p = record p { filter = []; expanded = [] }

  unfoldable pub clear_metric_resource : List Text → Page Row → Page Row
  clear_metric_resource keys p = record (reset_metric_resource_ui p) {
    state = empty_state keys (suc p.state.request_version);
  }

  -- a guard of `loadMetricResource` that refuses to ask the server
  abbrev pub refuse : List Text → Text → Page Row → Page Row
  refuse keys message p = record p {
    state = record p.state {
      content = empty_metric_resource_data keys;
      loaded = true;
      error = message;
      duration_ms = none;
    };
  }

  abbrev pub ask : List Text → Page Row → Page Row
  ask keys p =
      let version = suc p.state.request_version in
      record p {
        state = record (empty_state keys version) { loading = true };
        in_flight = p.in_flight ++ record { version = version; source = p.selected } ∷ [];
      }

  unfoldable pub load_metric_resource : Kind → List Text → Bool → Page Row → Page Row
  load_metric_resource kind keys force p =
      let q = if force then reset_metric_resource_ui p else p in
      if p.state.loading || (p.state.loaded && not force)
      then p
      else if not p.configured || null p.sources
      then refuse keys (not_configured kind) q
      else if not (elem p.selected p.sources)
      then refuse keys (not_selected kind) q
      else ask keys q

  -- the `catch` and the `finally` of a request that is current
  abbrev pub fail : List Text → Text → ℕ → ResourceState Row → ResourceState Row
  fail keys message elapsed s = record s {
    content = empty_metric_resource_data keys;
    loaded = true;
    error = message;
    loading = false;
    duration_ms = some elapsed;
  }

  abbrev pub accept : ResourceData Row → ℕ → ResourceState Row → ResourceState Row
  accept content elapsed s = record s {
    content = content;
    loaded = true;
    error = [];
    loading = false;
    duration_ms = some elapsed;
  }

  abbrev pub settle :
      (Value → Number)
      → (Value → ResourceData Row)
      → Kind
      → List Text
      → Text
      → Request
      → Outcome
      → ℕ
      → ResourceState Row
      → ResourceState Row
  settle convert normalize kind keys selected r type_error elapsed s =
      fail keys (codes "无法连接指标资源服务，请检查网络后重试") elapsed s
  settle convert normalize kind keys selected r (failure message) elapsed s =
      fail keys (error_text message) elapsed s
  settle convert normalize kind keys selected r (body b) elapsed s =
      if not (normalize_metric_prometheus_id convert (property (source_key kind) b) == r.source)
        || not (selected == r.source)
      then fail keys (error_text mismatch) elapsed s
      else accept (normalize (property (resource_key kind) b)) elapsed s

-- What happens to the page. A reply settles the request at this place among those in flight, after
-- `elapsed` milliseconds; `showing` says that the view of the kind is the one shown.
pub data Event : Type 0 where
  loads : Bool → Event
  clears : Event
  changes : Value → Bool → Event
  replies : ℕ → Outcome → ℕ → Event

module _ {Row : Type 0} (convert : Value → Number) (normalize : Value → ResourceData Row)
    (kind : Kind) (keys : List Text) where
  -- `changeMetricPrometheus` and `changeMetricAlertmanager`, so far as they concern the kind
  unfoldable pub change_source : Value → Bool → Page Row → Page Row
  unfolding clear_metric_resource load_metric_resource
  change_source v showing p =
      let id = normalize_metric_prometheus_id convert v in
      let q =
        clear_metric_resource keys (record p { selected = if elem id p.sources then id else [] }) in
      let loaded = load_metric_resource kind keys true q in
      if showing && elem q.selected q.sources then loaded else q

  -- The reply to a request that is not current changes nothing.
  unfoldable pub reply : ℕ → Outcome → ℕ → Page Row → Page Row
  reply n outcome elapsed p = elim (pick n p.in_flight) [
    | none ↦ p
    | some (r, rest) ↦ record p {
      state =
          if r.version == p.state.request_version
          then settle convert normalize kind keys p.selected r outcome elapsed p.state
          else p.state;
      in_flight = rest;
    }
  ]

  unfoldable pub step : Page Row → Event → Page Row
  unfolding clear_metric_resource load_metric_resource change_source reply
  step p (loads force) = load_metric_resource kind keys force p
  step p clears = clear_metric_resource keys p
  step p (changes v showing) = change_source v showing p
  step p (replies n outcome elapsed) = reply n outcome elapsed p

  unfoldable pub run : Page Row → List Event → Page Row
  unfolding step
  run p [] = p
  run p (e ∷ es) = run (step p e) es
