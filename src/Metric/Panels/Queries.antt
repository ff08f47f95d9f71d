-- ===== src/Metric/Panels/Queries.antt =====
-- `executeMetricQuery`, `metricResponseSourceIsCurrent` and `metricQueryStatus` of
-- static/js/ops-vue-pages.js.
use centos_info_collect.Base.{
  ℕ, Bool, true, false, not, ◌&&◌, ◌||◌, ◌≡◌, refl, Option, none, some, List, [], ◌∷◌, Text, codes,
  null, elem, trim, ◌==◌, ℕ_eq, list_eq, if◌then◌else◌, arith, Bool-cases, inl, inr,
}
use centos_info_collect.Metric.Fetch.{Outcome, type_error, failure, body}
use centos_info_collect.Metric.Values.{
  Number, Value, string, property, normalize_metric_prometheus_id,
}
use centos_info_collect.Metric.Panels.{empty_metric_table, normalize_metric_table, Panel}

-- What a query reads of the component: the flag of the page's data, the identifiers of the
-- connections, and the one that is chosen.
pub record Sources : Type 0 where
  pub prometheus_configured : Bool
  pub prometheus_ids : List Text
  pub selected : Text

-- a query that is refused before a request is made
abbrev refuse : Text → Panel → Panel
refuse message p = record p { table = empty_metric_table; error = message }

-- The part of `executeMetricQuery` before the request, and the source it is made to, if it is.
unfoldable pub execute_metric_query : Sources → Panel → Panel × Option Text
execute_metric_query src p =
    let query = trim p.query in
    let q : Panel = record p {
      query = query;
      has_executed = true;
      error = [];
      duration_ms = none;
    } in
    if p.loading
    then (p, none)
    else if null query
    then (refuse (codes "请输入 PromQL 查询语句") q, none)
    else if not src.prometheus_configured || null src.prometheus_ids
    then (refuse (codes "请先配置并启用 Prometheus 对接") q, none)
    else if not (elem src.selected src.prometheus_ids)
    then (refuse (codes "请选择 Prometheus 连接") q, none)
    else (record q { loading = true }, some src.selected)

module _ (convert : Value → Number) where
  abbrev pub metric_response_source_is_current : Sources → Text → Value → Bool
  metric_response_source_is_current src requested b =
      let returned = normalize_metric_prometheus_id convert (property (codes "prometheus_id") b) in
      not (null returned)
      && returned == requested
      && src.selected == requested
      && elem returned src.prometheus_ids

  -- `typeof body.query === 'string' ? body.query : panel.query`
  abbrev query_or : Text → Value → Text
  query_or query (string s) = s
  query_or query v = query

  -- The part after the request, when it took `elapsed` milliseconds.
  unfoldable pub finish_metric_query : Sources → Text → Outcome → ℕ → Panel → Panel
  finish_metric_query src requested outcome elapsed p =
      let settled : Panel = record p { loading = false; duration_ms = some elapsed } in
      elim outcome [
        | type_error ↦ refuse (codes "无法连接指标查询服务，请检查网络后重试") settled
        | failure message ↦ refuse (if null message then codes "指标查询失败" else message) settled
        | body b ↦
            if metric_response_source_is_current src requested b
            then record settled {
              query = query_or p.query (property (codes "query") b);
              table = normalize_metric_table convert (property (codes "table") b);
            }
            else refuse (codes "指标查询来源不一致，请重新查询") settled
      ]

pub data QueryStatus : Type 0 where
  querying : QueryStatus
  failed : QueryStatus
  idle : QueryStatus
  empty : QueryStatus
  success : QueryStatus

unfoldable pub metric_query_status : Panel → QueryStatus
metric_query_status p =
    if p.loading
    then querying
    else if not (null p.error)
    then failed
    else if not p.has_executed
    then idle
    else if null p.table.rows
    then empty
    else success

-- whether the reply is taken as the result of the query
abbrev pub is_accepted : (Value → Number) → Sources → Text → Outcome → Bool
is_accepted convert src requested type_error = false
is_accepted convert src requested (failure message) = false
is_accepted convert src requested (body b) =
    metric_response_source_is_current convert src requested b

-- the rows that a reply brings
abbrev pub rows_of : (Value → Number) → Outcome → List Value
rows_of convert type_error = []
rows_of convert (failure message) = []
rows_of convert (body b) = (normalize_metric_table convert (property (codes "table") b)).rows

-- The status that a reply of this kind is to lead to.
abbrev pub status_after : Bool → List Value → QueryStatus
status_after false rows = failed
status_after true [] = empty
status_after true (r ∷ rs) = success

null-status : (rows : List Value) → (if null rows then empty else success) ≡ status_after true rows
null-status [] = refl
null-status (r ∷ rs) = refl

success-status :
    (q : Panel)
    → q.loading ≡ false
    → q.error ≡ []
    → q.has_executed ≡ true
    → metric_query_status q ≡ status_after true q.table.rows
unfolding metric_query_status
success-status q l e x = ground (arith, null-status q.table.rows)

finish-status :
    (convert : Value → Number) (src : Sources) (requested : Text) (outcome : Outcome) (elapsed : ℕ)
    (p : Panel)
    → p.error ≡ []
    → p.has_executed ≡ true
    → metric_query_status (finish_metric_query convert src requested outcome elapsed p)
      ≡ status_after (is_accepted convert src requested outcome) (rows_of convert outcome)
unfolding finish_metric_query metric_query_status
finish-status convert src requested type_error elapsed p e x = refl
finish-status convert src requested (failure message) elapsed p e x = ground arith
finish-status convert src requested (body b) elapsed p e x =
    let settled : Panel = record p { loading = false; duration_ms = some elapsed } in
    let table = normalize_metric_table convert (property (codes "table") b) in
    elim (Bool-cases (metric_response_source_is_current convert src requested b)) [
      | inl y ↦ rw y (
          success-status
            (record settled {
              query = query_or convert p.query (property (codes "query") b);
              table = table;
            })
            refl e x)
      | inr n ↦ rw n refl
    ]

-- When a query that was executed on a panel that did not load has made its request, then whatever
-- the reply is and whatever sources are on offer when it comes, the panel shows a result, which is
-- empty when the table has no rows, if the reply is a body for the source that was asked and that
-- is still chosen and on offer, and an error otherwise.
pub finish_metric_query-status :
    (convert : Value → Number) (src now : Sources) (outcome : Outcome) (elapsed : ℕ) (p : Panel)
    → p.loading ≡ false
    → (execute_metric_query src p).1 ≡ some src.selected
    → metric_query_status (
        finish_metric_query convert now src.selected outcome elapsed (execute_metric_query src p).0)
      ≡ status_after (is_accepted convert now src.selected outcome) (rows_of convert outcome)
unfolding execute_metric_query
finish_metric_query-status convert src now outcome elapsed p l a =
    let q = (execute_metric_query src p).0 in
    finish-status convert now src.selected outcome elapsed q (ground arith) (ground arith)
