-- ===== src/Metric/Texts.antt =====
-- `safeMetricResourceText` and the functions of static/js/ops-vue-pages.js that read a text, an
-- identifier and a status from a value.
use centos_info_collect.Base.{
  ℕ, zero, ◌+◌, ◌-◌, ◌≤◌, ◌≡◌, ◌&&◌, [], ◌∷◌, ◌++◌, Text, codes, trim, null, length, take,
  length-take, length-append, ltb, leb, elem, ℕ_eq, list_eq, if◌then◌else◌, arith, map,
}
use centos_info_collect.Metric.Values.{
  Value, null_value, undefined, boolean, number, string, array, object,
}

-- `text`, or as much of it as `max_length` leaves beside the three dots
unfoldable pub shorten : Text → ℕ → Text
shorten text max_length =
    if leb (length text) max_length
    then text
    else if ltb 3 max_length
    then take (max_length - 3) text ++ codes "..."
    else take max_length text

unfoldable pub safe_metric_resource_text : Value → ℕ → Text
unfolding shorten
safe_metric_resource_text (string s) max_length =
    let text = trim s in if null text then [] else shorten text max_length
safe_metric_resource_text v max_length = []

length-shorten : (text : Text) (max_length : ℕ) → length (shorten text max_length) ≤ max_length
unfolding shorten
length-shorten text max_length = ground (
  arith,
  length-take (max_length - 3) text,
  length-take max_length text,
  length-append (take (max_length - 3) text) (codes "..."),
)

-- A text that is shown is no longer than it may be.
pub length-safe_metric_resource_text :
    (v : Value) (max_length : ℕ) → length (safe_metric_resource_text v max_length) ≤ max_length
unfolding safe_metric_resource_text
length-safe_metric_resource_text (string s) max_length =
    ground (arith, length-shorten (trim s) max_length)
length-safe_metric_resource_text null_value max_length = ground arith
length-safe_metric_resource_text undefined max_length = ground arith
length-safe_metric_resource_text (boolean b) max_length = ground arith
length-safe_metric_resource_text (number n) max_length = ground arith
length-safe_metric_resource_text (array vs) max_length = ground arith
length-safe_metric_resource_text (object es) max_length = ground arith

-- A string whose trimmed text fits is shown as that text.
pub safe_metric_resource_text_lem :
    (s : Text) (max_length : ℕ)
    → length (trim s) ≤ max_length
    → safe_metric_resource_text (string s) max_length ≡ trim s
unfolding safe_metric_resource_text shorten
safe_metric_resource_text_lem s max_length h = ground arith

-- `maxLength || 140`
abbrev pub dashboard_text : Value → ℕ → Text
dashboard_text v zero = safe_metric_resource_text v 140
dashboard_text v max_length = safe_metric_resource_text v max_length

-- `toLowerCase`, where `lower_other` is what it makes of a code unit that is not ASCII
abbrev pub to_lower_case : (ℕ → Text) → Text → Text
to_lower_case lower_other [] = []
to_lower_case lower_other (c ∷ s) =
    (if leb 65 c && leb c 90 then (c + 32) ∷ [] else if ltb c 128 then c ∷ [] else lower_other c)
    ++ to_lower_case lower_other s

pub data Status : Type 0 where
  healthy : Status
  warning : Status
  critical : Status
  unknown : Status

unfoldable pub dashboard_status : (ℕ → Text) → Value → Status
dashboard_status lower_other v =
    let status = to_lower_case lower_other (dashboard_text v 32) in
    if elem status (map codes ("running" ∷ "ready" ∷ "up" ∷ "healthy" ∷ "ok" ∷ []))
    then healthy
    else if elem status (map codes ("pending" ∷ "warning" ∷ []))
    then warning
    else if elem status (map codes ("failed" ∷ "error" ∷ "down" ∷ "unhealthy" ∷ "critical" ∷ []))
    then critical
    else unknown
