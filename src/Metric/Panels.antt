-- ===== src/Metric/Panels.antt =====
-- The query panels of static/js/ops-vue-pages.js: `normalizeMetricTable`, `metricQueryPanel`,
-- `executeMetricQuery`, the list of panels and the suggestions under a query.
pub mod Queries
pub mod Listing
pub mod Suggestions
use centos_info_collect.Base.{
  ℕ, zero, suc, ◌+◌, ◌-◌, ◌%◌, Bool, true, false, not, ◌&&◌, ◌||◌, Option, none, some, List, [],
  ◌∷◌, ◌++◌, Text, codes, null, length, take, drop, select, elem, trim, map, get_elem?, includes,
  ◌==◌, ℕ_eq, list_eq, if◌then◌else◌,
}
use centos_info_collect.Metric.Values.{
  Number, natural, Value, null_value, undefined, boolean, number, string, array, object, property,
  truthy, array_or_empty, string_or_empty, is_record, to_number, is_finite,
  normalize_metric_prometheus_id,
}
use centos_info_collect.Metric.Texts.{to_lower_case}

pub record Table : Type 0 where
  pub result_type : Text
  pub label_columns : List Text
  pub rows : List Value
  pub total_rows : Number
  pub truncated : Bool

abbrev pub empty_metric_table : Table
empty_metric_table = record {
  result_type = [];
  label_columns = [];
  rows = [];
  total_rows = natural 0;
  truncated = false;
}

-- `filter((column) => typeof column === 'string')`
abbrev pub strings : List Value → List Text
strings [] = []
strings (string s ∷ vs) = s ∷ strings vs
strings (null_value ∷ vs) = strings vs
strings (undefined ∷ vs) = strings vs
strings (boolean b ∷ vs) = strings vs
strings (number n ∷ vs) = strings vs
strings (array ws ∷ vs) = strings vs
strings (object es ∷ vs) = strings vs

-- `rawTotalRows !== null && rawTotalRows !== undefined`
abbrev pub is_present : Value → Bool
is_present null_value = false
is_present undefined = false
is_present v = true

unfoldable pub normalize_metric_table : (Value → Number) → Value → Table
normalize_metric_table convert table =
    let rows = array_or_empty (property (codes "rows") table) in
    let raw_total_rows = property (codes "total_rows") table in
    if not (is_record table) then empty_metric_table else record {
      result_type = string_or_empty (property (codes "result_type") table);
      label_columns = strings (array_or_empty (property (codes "label_columns") table));
      rows = rows;
      total_rows =
          if is_present raw_total_rows && is_finite (to_number convert raw_total_rows)
          then to_number convert raw_total_rows
          else natural (length rows);
      truncated = truthy (property (codes "truncated") table);
    }

pub data SuggestionKind : Type 0 where
  metric : SuggestionKind
  label : SuggestionKind
  promql_function : SuggestionKind

pub record Suggestion : Type 0 where
  pub kind : SuggestionKind
  pub query : Text

-- `suggestion_index` is `none` for -1. The fields of the scroll bar are left out.
pub record Panel : Type 0 where
  pub id : ℕ
  pub query : Text
  pub suggestions : List Suggestion
  pub suggestions_visible : Bool
  pub suggestion_index : Option ℕ
  pub metric_suggestion_loading : Bool
  pub metric_suggestion_error : Text
  pub table : Table
  pub error : Text
  pub loading : Bool
  pub has_executed : Bool
  pub duration_ms : Option ℕ

abbrev pub metric_query_panel : (Value → Number) → ℕ → Value → Value → Value → Panel
metric_query_panel convert id query table error =
    let normalized_table = normalize_metric_table convert table in
    record {
      id = id;
      query = string_or_empty query;
      suggestions = [];
      suggestions_visible = false;
      suggestion_index = none;
      metric_suggestion_loading = false;
      metric_suggestion_error = [];
      table = normalized_table;
      error = string_or_empty error;
      loading = false;
      has_executed =
          truthy query
          || truthy error
          || not (null normalized_table.result_type)
          || not (null normalized_table.rows);
      duration_ms = none;
    }

abbrev pub clear_metric_query_result : Panel → Panel
clear_metric_query_result p = record p {
  table = empty_metric_table;
  error = [];
  duration_ms = none;
  has_executed = false;
}

abbrev pub reset_metric_query_result : Panel → Panel
reset_metric_query_result p = if p.loading then p else clear_metric_query_result p

-- what `changeMetricPrometheus` does to each panel
abbrev pub forget : Panel → Panel
forget p = record (clear_metric_query_result p) {
  suggestions = [];
  suggestions_visible = false;
  suggestion_index = none;
  metric_suggestion_loading = false;
  metric_suggestion_error = [];
}
