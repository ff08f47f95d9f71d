-- ===== src/Metric/Dashboard/Loads.antt =====
-- `loadDashboard` and `changeDashboardPrometheus` of static/js/ops-vue-pages.js. Of the data of the
-- dashboard the names of the hosts are kept, from which the nodes on offer come.
use centos_info_collect.Base.{
  ℕ, suc, Bool, true, false, not, ◌&&◌, ◌||◌, none, some, List, [], ◌∷◌, ◌++◌, Text, codes, null,
  take, select, map, elem, pick, ◌==◌, ℕ_eq, list_eq, if◌then◌else◌,
}
use centos_info_collect.Metric.Values.{
  Number, Value, property, truthy, is_record, array_or_empty, normalize_metric_prometheus_id,
}
use centos_info_collect.Metric.Texts.{dashboard_text}
use centos_info_collect.Metric.Fetch.{Outcome, type_error, failure, body}
use centos_info_collect.Metric.Dashboard.{dashboard_node_options, sync_dashboard_node_selection}

pub record Request : Type 0 where
  pub version : ℕ
  pub source : Text

-- `prometheus_ids` are those of the connections, `selected` the one that is chosen, `has_url` that
-- the page has an endpoint, and `hosts` the names in `dashboardData.hosts`.
pub record DashboardPage : Type 0 where
  pub prometheus_ids : List Text
  pub selected : Text
  pub has_url : Bool
  pub loading : Bool
  pub loaded : Bool
  pub error : Bool
  pub request_version : ℕ
  pub hosts : List Text
  pub selected_nodes : List Text
  pub in_flight : List Request

-- `dashboardText(row.instance, 160) || '未命名主机'`
abbrev pub host_name : Value → Text
host_name row =
    let text = dashboard_text (property (codes "instance") row) 160 in
    if null text then codes "未命名主机" else text

-- the names that `normalizeDashboardRows` gives the hosts
abbrev pub host_names : Value → List Text
host_names source =
    map host_name (take 500 (select is_record (array_or_empty (property (codes "hosts") source))))

unfoldable pub load_dashboard : Bool → DashboardPage → DashboardPage
load_dashboard force p =
    let version = suc p.request_version in
    if p.loading || (not force && p.loaded)
    then p
    else if not (elem p.selected p.prometheus_ids) || not p.has_url
    then record p { error = true; loaded = true }
    else record p {
      request_version = version;
      loading = true;
      error = false;
      in_flight = p.in_flight ++ record { version = version; source = p.selected } ∷ [];
    }

-- the first connection, or none
abbrev pub first_id : List Text → Text
first_id [] = []
first_id (id ∷ ids) = id

module _ (convert : Value → Number) where
  unfoldable pub change_dashboard_prometheus : Value → DashboardPage → DashboardPage
  unfolding load_dashboard
  change_dashboard_prometheus v p =
      let id = normalize_metric_prometheus_id convert v in
      load_dashboard true (record p {
        selected = if elem id p.prometheus_ids then id else first_id p.prometheus_ids;
        loaded = false;
        error = false;
        hosts = [];
        selected_nodes = [];
      })

  -- `body.dashboard || body`
  abbrev dashboard_of : Value → Value
  dashboard_of b =
      if truthy (property (codes "dashboard") b) then property (codes "dashboard") b else b

  -- the reply to a request of the current version, up to the `finally` block
  abbrev pub settle : Request → Outcome → DashboardPage → DashboardPage
  settle r type_error p = record p { hosts = []; loaded = true; error = true }
  settle r (failure message) p = record p { hosts = []; loaded = true; error = true }
  settle r (body b) p =
      let hosts = host_names (dashboard_of b) in
      if not (p.selected == r.source)
        || not (
            normalize_metric_prometheus_id convert (property (codes "prometheus_id") b) == r.source)
      then p
      else record p {
        hosts = hosts;
        selected_nodes =
            sync_dashboard_node_selection (dashboard_node_options hosts) p.selected_nodes;
        loaded = true;
      }

  -- The request at this place settles; one that is not current changes nothing.
  unfoldable pub reply : ℕ → Outcome → DashboardPage → DashboardPage
  reply n outcome p = elim (pick n p.in_flight) [
    | none ↦ p
    | some (r, rest) ↦
        let q : DashboardPage = record p { in_flight = rest } in
        if r.version == p.request_version
        then record (settle r outcome q) { loading = false }
        else q
  ]

pub data Event : Type 0 where
  loads : Bool → Event
  changes : Value → Event
  replies : ℕ → Outcome → Event

module _ (convert : Value → Number) where
  unfoldable pub step : DashboardPage → Event → DashboardPage
  unfolding load_dashboard change_dashboard_prometheus reply
  step p (loads force) = load_dashboard force p
  step p (changes v) = change_dashboard_prometheus convert v p
  step p (replies n outcome) = reply convert n outcome p

  unfoldable pub run : DashboardPage → List Event → DashboardPage
  unfolding step
  run p [] = p
  run p (e ∷ es) = run (step p e) es
