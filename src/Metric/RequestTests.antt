-- ===== src/Metric/RequestTests.antt =====
-- The requests, the queries and the panels of the metric pages at concrete events.
use centos_info_collect.Base.{
  ℕ, ◌≡◌, ◌↔◌, null, refl, true, false, Text, some, List, [], ◌∷◌, codes, list_eq, ℕ_eq, elem, trim,
}
use centos_info_collect.Metric.Decimals.{to_text}
use centos_info_collect.Metric.Values.{
  normalize_metric_prometheus_id, Number, nan, natural, Value, boolean, property, is_record, string,
  number, object, no_entries, entries, null_value,
}
use centos_info_collect.Metric.Fetch.{
  type_error, failure, body, resource, Response, fetch_metric_json, is_json, is_true,
  fetch_metric_json-body_iff,
}
use centos_info_collect.Metric.Rows.{ResourceData, TargetRow, target_keys, normalize_metric_targets}
use centos_info_collect.Metric.Resources.{
  Page, targets, empty_state, Event, loads, changes, replies, run, clear_metric_resource,
}
use centos_info_collect.Metric.Resources.Requests.{IsAwaited, run-IsAwaited}
use centos_info_collect.Metric.Resources.Late.{run-cleared, replies_of}
use centos_info_collect.Metric.Dashboard.Loads
use centos_info_collect.Metric.Dashboard.Readiness.{IsReady, IsCalmRun, mounted-IsReady}
use centos_info_collect.Metric.Panels.{metric, Panel, metric_query_panel}
use centos_info_collect.Metric.Panels.Queries.{
  Sources, execute_metric_query, finish_metric_query, metric_query_status,
  finish_metric_query-status, status_after, is_accepted, rows_of,
}
use centos_info_collect.Metric.Panels.Suggestions

abbrev convert : Value → Number
convert v = nan

abbrev lower_other : ℕ → Text
lower_other c = c ∷ []

abbrev normalize : Value → ResourceData TargetRow
normalize v = normalize_metric_targets convert lower_other v

abbrev answer : Value
answer = object (entries (codes "ok") (boolean true) no_entries)

abbrev response : Response
response = record {
  redirected = false;
  status = 200;
  ok = true;
  content_type = codes "application/json";
  json = some answer;
}

fetch_metric_json-body_iff_example :
    (fetch_metric_json lower_other resource (codes "/targets") (some response) ≡ body answer) ↔ (
      ((null (codes "/targets") ≡ false) × (is_json lower_other response ≡ true))
      × (((response.json ≡ some answer) × (is_record answer ≡ true))
          × ((response.ok ≡ true) × (is_true (property (codes "ok") answer) ≡ true))))
fetch_metric_json-body_iff_example =
    fetch_metric_json-body_iff lower_other resource (codes "/targets") response answer

abbrev page : Page TargetRow
page = record {
  state = empty_state target_keys 0;
  configured = true;
  sources = codes "3" ∷ codes "4" ∷ [];
  selected = codes "3";
  filter = [];
  expanded = [];
  in_flight = [];
}

abbrev events : List Event
events =
    loads false
    ∷ changes (number (natural 4)) true
    ∷ loads true
    ∷ replies 1 (failure (codes "no")) 20
    ∷ replies 0 type_error 30
    ∷ []

run-IsAwaited_example : IsAwaited (run convert normalize targets target_keys page events)
run-IsAwaited_example =
    run-IsAwaited convert normalize targets target_keys page events (refl, (refl, tt))

run-cleared_example :
    (run convert normalize targets target_keys
      (clear_metric_resource target_keys page)
      (replies_of convert normalize targets target_keys ((0, (type_error, 5)) ∷ []))).state
    ≡ (clear_metric_resource target_keys page).state
run-cleared_example =
    run-cleared convert normalize targets target_keys page ((0, (type_error, 5)) ∷ [])
      (refl, (refl, tt))

abbrev board : Loads.DashboardPage
board = record {
  prometheus_ids = codes "3" ∷ codes "4" ∷ [];
  selected = codes "3";
  has_url = true;
  loading = false;
  loaded = false;
  error = false;
  request_version = 0;
  hosts = [];
  selected_nodes = [];
  in_flight = [];
}

-- the number 3, in a body for the connection 3
abbrev echo : Value
echo = object (entries (codes "prometheus_id") (number (natural 3)) no_entries)

abbrev visits : List Loads.Event
visits =
    Loads.loads false
    ∷ Loads.replies 0 (body echo)
    ∷ Loads.changes (number (natural 4))
    ∷ Loads.replies 0 type_error
    ∷ []

visits-IsCalmRun : IsCalmRun convert (Loads.load_dashboard true board) visits
unfolding IsCalmRun Loads.step normalize_metric_prometheus_id elem to_text
visits-IsCalmRun = (tt, (refl, (refl, (tt, tt))))

mounted-IsReady_example : IsReady (Loads.run convert (Loads.load_dashboard true board) visits)
mounted-IsReady_example = mounted-IsReady convert board visits refl refl visits-IsCalmRun

abbrev sources : Sources
sources = record {
  prometheus_configured = true;
  prometheus_ids = codes "3" ∷ [];
  selected = codes "3";
}

abbrev panel : Panel
panel = metric_query_panel convert 1 (string (codes "up")) null_value null_value

finish_metric_query-status_example :
    metric_query_status (
      finish_metric_query convert sources
        (codes "3")
        (failure (codes "bad query"))
        12
        (execute_metric_query sources panel).0)
    ≡ status_after
        (is_accepted convert sources (codes "3") (failure (codes "bad query")))
        (rows_of convert (failure (codes "bad query")))
unfolding execute_metric_query trim elem
finish_metric_query-status_example =
    finish_metric_query-status convert sources sources (failure (codes "bad query")) 12 panel refl
      refl

abbrev keys : List Suggestions.Event
keys =
    Suggestions.suggests (record { kind = metric; query = codes "up" } ∷ [])
    ∷ Suggestions.presses Suggestions.arrow_up
    ∷ []

run-IsChosen_example : Suggestions.IsChosen (Suggestions.run panel keys)
run-IsChosen_example = Suggestions.run-IsChosen panel keys refl
