-- ===== src/Metric/Rows.antt =====
-- `normalizeMetricTargets`, `normalizeMetricRules` and `normalizeMetricAlerts` of
-- static/js/ops-vue-pages.js.
pub mod Bounds
use centos_info_collect.Base.{
  ℕ, Bool, true, false, ◌||◌, Option, List, [], ◌∷◌, Text, codes, length, take, select, ltb, map,
  if◌then◌else◌,
}
use centos_info_collect.Metric.Values.{
  Number, Value, boolean, object, property, is_record, truthy, array_or_empty,
  safe_metric_resource_count, safe_metric_resource_seconds,
}
use centos_info_collect.Metric.Texts.{safe_metric_resource_text}
use centos_info_collect.Metric.Cleaning.{Label, normalize_metric_resource_labels}

pub record TargetRow : Type 0 where
  pub name : Text
  pub instance_name : Text
  pub job : Text
  pub scrape_pool : Text
  pub health : Text
  pub last_scrape : Text
  pub last_scrape_duration : Option Number
  pub labels : List Label
  pub has_error : Bool

pub record RuleRow : Type 0 where
  pub group : Text
  pub name : Text
  pub rule_type : Text
  pub health : Text
  pub state : Text
  pub query : Text
  pub duration : Option Number
  pub labels : List Label
  pub last_evaluation : Text
  pub evaluation_time : Option Number
  pub active_alerts : ℕ
  pub has_error : Bool

pub record AlertRow : Type 0 where
  pub name : Text
  pub status : Text
  pub starts_at : Text
  pub updated_at : Text
  pub ends_at : Text
  pub labels : List Label
  pub annotations : List Label

-- `counts` are those of the kind, in the order of the source: up, down, unknown and with_errors of
-- targets, alerting, recording, unhealthy, firing and pending of rules, firing, resolved and other
-- of alerts.
pub record ResourceData (Row : Type 0) : Type 0 where
  pub rows : List Row
  pub total : ℕ
  pub counts : List ℕ
  pub total_rows : ℕ
  pub truncated : Bool

abbrev pub empty_metric_resource_data : {Row : Type 0} → List Text → ResourceData Row
empty_metric_resource_data keys = record {
  rows = [];
  total = 0;
  counts = map (λ k. 0) keys;
  total_rows = 0;
  truncated = false;
}

abbrev pub target_keys : List Text
target_keys = map codes ("up" ∷ "down" ∷ "unknown" ∷ "with_errors" ∷ [])

abbrev pub rule_keys : List Text
rule_keys = map codes ("alerting" ∷ "recording" ∷ "unhealthy" ∷ "firing" ∷ "pending" ∷ [])

abbrev pub alert_keys : List Text
alert_keys = map codes ("firing" ∷ "resolved" ∷ "other" ∷ [])

abbrev is_true : Value → Bool
is_true (boolean b) = b
is_true v = false

module _ (convert : Value → Number) where
  -- The part that the three functions share: `row_of` reads a row and `keys` are those of the
  -- summary. A property of a summary that is no object is `undefined`, as that of `{}` is.
  abbrev pub normalize_object :
      {Row : Type 0} → (Value → Row) → List Text → Value → ResourceData Row
  normalize_object row_of keys resource =
      let raw_rows = array_or_empty (property (codes "rows") resource) in
      let rows = map row_of (take 500 (select is_record raw_rows)) in
      let raw_summary = property (codes "summary") resource in
      let total_rows =
        safe_metric_resource_count convert (property (codes "total_rows") resource)
          (length raw_rows) in
      record {
        rows = rows;
        total =
            safe_metric_resource_count convert (property (codes "total") raw_summary) total_rows;
        counts = map (λ k. safe_metric_resource_count convert (property k raw_summary) 0) keys;
        total_rows = total_rows;
        truncated =
            truthy (property (codes "truncated") resource)
            || ltb (length rows) (length raw_rows)
            || ltb (length rows) total_rows;
      }

  unfoldable pub normalize_rows :
      {Row : Type 0} → (Value → Row) → List Text → Value → ResourceData Row
  normalize_rows row_of keys resource =
      if is_record resource
      then normalize_object row_of keys resource
      else empty_metric_resource_data keys

module _ (convert : Value → Number) (lower_other : ℕ → Text) where
  abbrev pub target_row : Value → TargetRow
  target_row row = record {
    name = safe_metric_resource_text (property (codes "name") row) 240;
    instance_name = safe_metric_resource_text (property (codes "instance") row) 240;
    job = safe_metric_resource_text (property (codes "job") row) 160;
    scrape_pool = safe_metric_resource_text (property (codes "scrape_pool") row) 160;
    health = safe_metric_resource_text (property (codes "health") row) 32;
    last_scrape = safe_metric_resource_text (property (codes "last_scrape") row) 80;
    last_scrape_duration =
        safe_metric_resource_seconds convert (property (codes "last_scrape_duration") row);
    labels = normalize_metric_resource_labels lower_other (property (codes "labels") row);
    has_error = is_true (property (codes "has_error") row);
  }

  abbrev pub rule_row : Value → RuleRow
  rule_row row = record {
    group = safe_metric_resource_text (property (codes "group") row) 240;
    name = safe_metric_resource_text (property (codes "name") row) 240;
    rule_type = safe_metric_resource_text (property (codes "type") row) 32;
    health = safe_metric_resource_text (property (codes "health") row) 32;
    state = safe_metric_resource_text (property (codes "state") row) 32;
    query = safe_metric_resource_text (property (codes "query") row) 2000;
    duration = safe_metric_resource_seconds convert (property (codes "duration") row);
    labels = normalize_metric_resource_labels lower_other (property (codes "labels") row);
    last_evaluation = safe_metric_resource_text (property (codes "last_evaluation") row) 80;
    evaluation_time = safe_metric_resource_seconds convert (property (codes "evaluation_time") row);
    active_alerts = safe_metric_resource_count convert (property (codes "active_alerts") row) 0;
    has_error = is_true (property (codes "has_error") row);
  }

  abbrev pub alert_row : Value → AlertRow
  alert_row row = record {
    name = safe_metric_resource_text (property (codes "name") row) 240;
    status = safe_metric_resource_text (property (codes "status") row) 32;
    starts_at = safe_metric_resource_text (property (codes "starts_at") row) 80;
    updated_at = safe_metric_resource_text (property (codes "updated_at") row) 80;
    ends_at = safe_metric_resource_text (property (codes "ends_at") row) 80;
    labels = normalize_metric_resource_labels lower_other (property (codes "labels") row);
    annotations = normalize_metric_resource_labels lower_other (property (codes "annotations") row);
  }

  abbrev pub normalize_metric_targets : Value → ResourceData TargetRow
  normalize_metric_targets resource = normalize_rows convert target_row target_keys resource

  abbrev pub normalize_metric_rules : Value → ResourceData RuleRow
  normalize_metric_rules resource = normalize_rows convert rule_row rule_keys resource

  abbrev pub normalize_metric_alerts : Value → ResourceData AlertRow
  normalize_metric_alerts resource = normalize_rows convert alert_row alert_keys resource
