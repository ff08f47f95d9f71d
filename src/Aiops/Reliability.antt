-- ===== src/Aiops/Reliability.antt =====
-- `loadServiceReliability` of static/js/aiops-vue.js: a panel that a new choice of the window loads
-- again while an earlier request is in flight.
use centos_info_collect.Base.{
  ℕ, suc, Bool, true, false, not, Option, none, some, List, [], ◌∷◌, ◌++◌, Text, codes, null, pick,
  ◌==◌, ℕ_eq, if◌then◌else◌,
}
use centos_info_collect.Metric.Values.{Value, null_value, property, truthy, array_or_empty}
use centos_info_collect.Aiops.Replies.{Reply, Result, failed, loaded, read_reply}
use centos_info_collect.Aiops.Loads.Methods.{or_null}
pub mod Latest
pub mod Refine

-- a call that has not ended, with its `requestId` and its `requestedWindow`
pub record Call : Type 0 where
  pub id : ℕ
  pub window : Text

pub record Reliability : Type 0 where
  pub window : Text
  pub request_id : ℕ
  pub loading : Bool
  pub error : Text
  pub results : List Value
  pub summary : Value
  pub in_flight : List Call

-- `select` is the choice of a window, which loads; `clicks` is the button, which the template
-- disables while the panel loads.
pub data Event : Type 0 where
  selects : Text → Event
  clicks : Event
  replies : ℕ → Reply → Event

abbrev pub new : Reliability
new = record {
  window = codes "24h";
  request_id = 0;
  loading = false;
  error = [];
  results = [];
  summary = null_value;
  in_flight = [];
}

-- `result.results || result.services || result.reliability`
abbrev pub reliability_rows : Value → Value
reliability_rows b =
    let results = property (codes "results") b in
    let services = property (codes "services") b in
    if truthy results
    then results
    else if truthy services
    then services
    else property (codes "reliability") b

abbrev pub fallback : Text
fallback = codes "服务可靠性评分加载失败"

unfoldable pub load_service_reliability : Text → Reliability → Reliability
load_service_reliability endpoint p = if null endpoint then p else record p {
  request_id = suc p.request_id;
  loading = true;
  error = [];
  in_flight = p.in_flight ++ record { id = suc p.request_id; window = p.window } ∷ [];
}

abbrev pub settle : Result → Reliability → Reliability
settle (failed m) p = record p { error = m; loading = false }
settle (loaded b) p = record p {
  summary = or_null (property (codes "summary") b);
  results = array_or_empty (reliability_rows b);
  loading = false;
}

-- The tests of `requestId` after the reply, in the `catch` and in the `finally` are the same one.
unfoldable pub reply : (Value → Text) → ℕ → Reply → Reliability → Reliability
reply show n r p = elim (pick n p.in_flight) [
  | none ↦ p
  | some (c, rest) ↦
      if c.id == p.request_id
      then settle (read_reply show fallback r) (record p { in_flight = rest })
      else record p { in_flight = rest }
]

unfoldable pub step : (Value → Text) → Text → Reliability → Event → Reliability
unfolding load_service_reliability reply
step show endpoint p (selects w) = load_service_reliability endpoint (record p { window = w })
step show endpoint p clicks = if p.loading then p else load_service_reliability endpoint p
step show endpoint p (replies n r) = reply show n r p

unfoldable pub run : (Value → Text) → Text → Reliability → List Event → Reliability
unfolding step
run show endpoint p [] = p
run show endpoint p (e ∷ es) = run show endpoint (step show endpoint p e) es
