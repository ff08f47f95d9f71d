-- ===== src/Aiops/Tests.antt =====
-- The panels, the tabs and the investigations of the page of intelligent operations at concrete
-- events.
use centos_info_collect.Base.{
  ℕ, ◌≡◌, refl, true, false, Text, none, some, List, [], ◌∷◌, ◌++◌, codes, arith,
}
use centos_info_collect.Metric.Values.{
  Value, null_value, boolean, string, number, natural, array, object, no_values, values, no_entries,
  entries,
}
use centos_info_collect.Tablist.{arrow_right, arrow_left, then_target, target-target_arrows}
use centos_info_collect.Aiops.Replies.{Reply, answered, read_reply}
use centos_info_collect.Aiops.Loads
use centos_info_collect.Aiops.Loads.Methods.{load_alert_groups}
use centos_info_collect.Aiops.Loads.Alone
use centos_info_collect.Aiops.Reliability
use centos_info_collect.Aiops.Reliability.Latest
use centos_info_collect.Aiops.Reliability.Refine
use centos_info_collect.Aiops.Tabs
use centos_info_collect.Aiops.Tabs.Focus
use centos_info_collect.Aiops.Investigations
use centos_info_collect.Aiops.Investigations.Calls
use centos_info_collect.Aiops.Investigations.Awaited
use centos_info_collect.Aiops.Investigations.Overtaken
use centos_info_collect.Aiops.Analyzer

abbrev show : Value → Text
show v = []

abbrev one_row : Text → Value
one_row name = array (values (string name) no_values)

abbrev body_of : Text → Value → Value
body_of key v = object (entries (codes "ok") (boolean true) (entries key v no_entries))

abbrev answer : Text → Value → Reply
answer key v = answered true (body_of key v)

-- a click, a change of the window while the panel loads, and the reply
run-click_reply_example :
    Loads.run show (load_alert_groups (codes "/api/")) (Loads.new (codes "24h") none) (
      Loads.clicks
      ∷ (Alone.waiting (some (codes "7d") ∷ none ∷ [])
          ++ (Loads.replies 0 (answer (codes "results") (one_row (codes "a"))) ∷ [])))
    ≡ Loads.new (codes "7d") (some (string (codes "a") ∷ []))
unfolding read_reply
run-click_reply_example =
    Alone.run-click_reply show (load_alert_groups (codes "/api/")) (Loads.new (codes "24h") none)
      (some (codes "7d") ∷ none ∷ []) (answer (codes "results") (one_row (codes "a"))) refl refl
      refl

abbrev overlapping : List Reliability.Event
overlapping =
    Reliability.clicks
    ∷ Reliability.selects (codes "7d")
    ∷ Reliability.replies 1 (answer (codes "results") (one_row (codes "new")))
    ∷ Reliability.replies 0 (answer (codes "results") (one_row (codes "old")))
    ∷ []

-- The reply for the earlier window comes last and is not shown.
late_reply :
    (Reliability.run show (codes "/api/") Reliability.new overlapping).results
    ≡ string (codes "new") ∷ []
unfolding Reliability.run Reliability.step Reliability.load_service_reliability Reliability.reply
    read_reply
late_reply = refl

run_refines_example :
    (Refine.latest (Reliability.run show (codes "/api/") Reliability.new overlapping)
      ≡ Latest.advance_all show (codes "/api/") (Refine.latest Reliability.new) overlapping)
    × (Latest.is_loading
          (Refine.latest (Reliability.run show (codes "/api/") Reliability.new overlapping))
        ≡ (Reliability.run show (codes "/api/") Reliability.new overlapping).loading)
run_refines_example =
    Refine.run_refines show (codes "/api/") Reliability.new overlapping
      (record { up_to = tt; awaited = refl })

abbrev endpoints : Tabs.Endpoints
endpoints = record {
  alert_groups = true;
  signal_freshness = false;
  service_impacts = true;
  service_reliability = false;
  service_workbench = false;
  operator_scan = true;
  k8s_analyzer = true;
}

abbrev opened : Tabs.Page
opened = record { active = codes "anomaly"; focus = 1 }

target-target_arrows_example :
    (then_target arrow_right arrow_left 4 5 ≡ some 4)
    × (then_target arrow_left arrow_right 4 5 ≡ some 4)
target-target_arrows_example = target-target_arrows 4 5 (omega arith)

abbrev context : Investigations.Context
context = record {
  endpoint = codes "/api/investigations/";
  template = codes "/api/{investigation_id}/feedback/";
  show = show;
  date_error = λ s. none;
  property_error = codes "null";
}

abbrev detail : ℕ → Value
detail n =
    body_of (codes "investigation") (object (entries (codes "id") (number (natural n)) no_entries))

abbrev row : ℕ → Value
row n = object (entries (codes "id") (number (natural n)) no_entries)

-- Two rows are opened one after the other, and their details have come.
abbrev two_opened : List Investigations.Event
two_opened =
    Investigations.opens (row 1)
    ∷ Investigations.replies 0 (answered true (detail 1))
    ∷ Investigations.opens (row 2)
    ∷ Investigations.replies 1 (answered true (detail 2))
    ∷ []

abbrev reading_two : Investigations.Investigations
unfolding Investigations.run
reading_two = Investigations.run context Investigations.new two_opened

run-new-IsAwaited_example :
    Calls.IsAwaited (Investigations.run context Investigations.new two_opened)
run-new-IsAwaited_example = Awaited.run-new-IsAwaited context two_opened

abbrev chosen : Analyzer.Analyzer
chosen = record {
  cluster = codes "c1";
  namespace = [];
  loading = false;
  refreshing = false;
  error = [];
  result = null_value;
  in_flight = [];
}

abbrev administrator : Analyzer.Context
administrator = record {
  template = codes "/k/";
  can_refresh = true;
  refresh_allowed = false;
  show = show;
}
