-- ===== src/Devops/Load.antt =====
-- The loading of the console of static/js/devops-vue.js: `loadAll` with the methods that it calls,
-- `refresh`, `scheduleStatusRefresh` and the timer that it sets. A method runs from its call to its
-- end, with nothing in between, on what the server answers to its requests.
use centos_info_collect.Base.{
  ℕ, Bool, true, false, not, ◌&&◌, ◌||◌, Option, none, some, List, [], ◌∷◌, ◌++◌, Text, codes, null,
  map, any, elem, take, ◌==◌, ℕ_eq, list_eq, if◌then◌else◌,
}
use centos_info_collect.Metric.Values.{Value, null_value}
use centos_info_collect.Devops.Fetch.{Reply, Outcome, failure, success, api_fetch}
use centos_info_collect.Devops.Work.{Alert, Approval, Work, Works, CenterCounts, has_running_work}
use centos_info_collect.Devops.Tabs.{Features, Tab, visible_tabs}
use centos_info_collect.Devops.Comments.{sync_approval_comments}
pub mod Stages
pub mod Polling

-- What `loadCommandCenter` and `loadIntegrationReadiness` show.
pub record Center : Type 0 where
  pub counts : CenterCounts
  pub timeline : List Value

pub record Readiness : Type 0 where
  pub worker : Value
  pub connectors : List Value
  pub collections : List Value
  pub blueprints : List Value
  pub plans : List Value

pub record Console : Type 0 where
  pub loading : Bool
  pub refreshing : Bool
  pub active_tab : Text
  pub error : Text
  pub notice : Text
  pub last_loaded_at : Text
  pub permissions : List Text
  pub alerts : List Alert
  pub hosts : List ℕ
  pub works : Works
  pub approvals : List Approval
  pub approval_comments : List (ℕ × Text)
  pub notifications : List Value
  pub audit_logs : List Value
  pub summaries : List (List Value)
  pub features : Features
  pub center : Center
  pub center_error : Text
  pub readiness : Readiness
  pub readiness_error : Text
  pub metrics : Value
  pub command_host : Option ℕ
  pub task_hosts : List ℕ
  pub metric_host : Option ℕ
  pub timer : Bool

-- what the eight requests bring that `loadAll` makes at once
pub record Initial : Type 0 where
  pub permissions : List Text
  pub alerts : List Alert
  pub hosts : List ℕ
  pub works : Works
  pub approvals : List Approval

-- The six optional summaries: each is available or not.
pub record Summaries : Type 0 where
  pub incidents : Reply (List Value)
  pub inspections : Reply (List Value)
  pub services : Reply (List Value)
  pub resources : Reply (List Value)
  pub costs : Reply (List Value)
  pub deliveries : Reply (List Value)

-- What the server answers. `initial` and `readiness` are what `Promise.all` makes of the requests
-- that are awaited together: the error of the first that fails, or what all of them bring. `clock`
-- is the time that is shown.
pub record Server : Type 0 where
  pub initial : Outcome Initial
  pub notifications : Reply (List Value)
  pub audit_logs : Reply (List Value)
  pub summaries : Summaries
  pub center : Reply Center
  pub readiness : Outcome Readiness
  pub metrics : Reply Value
  pub clock : Text

-- An `async` method goes on, or throws.
pub data Progress : Type 0 where
  going : Console → Progress
  thrown_at : Text → Console → Progress

abbrev pub and_then : Progress → (Console → Progress) → Progress
and_then (going p) k = k p
and_then (thrown_at m p) k = thrown_at m p

-- what the end of a request makes of the console
abbrev pub after : {A : Type 0} → Outcome A → (A → Console → Console) → Console → Progress
after (failure m) set p = thrown_at m p
after (success a) set p = going (set a p)

-- a request that is made only under a condition, and what is done with what it brings
abbrev pub await_if : {A : Type 0} → Bool → Reply A → (A → Console → Console) → Console → Progress
unfolding api_fetch
await_if needed r set p = if not needed then going p else after (api_fetch r) set p

abbrev pub granted : Text → Console → Bool
granted permission p = elem permission p.permissions

-- `loadOptionalSummary`
abbrev pub load_optional_summary : Reply (List Value) → Bool × List Value
load_optional_summary r = elim (api_fetch r) [ failure m ↦ (false, []) | success vs ↦ (true, vs) ]

-- `loadWorkflowSummaries`, which makes anew the flags of the features, without the command center
unfoldable pub load_workflow_summaries : Summaries → Console → Console
load_workflow_summaries s p =
    let (i, incidents) = load_optional_summary s.incidents in
    let (n, inspections) = load_optional_summary s.inspections in
    let (v, services) = load_optional_summary s.services in
    let (r, resources) = load_optional_summary s.resources in
    let (c, costs) = load_optional_summary s.costs in
    let (d, deliveries) = load_optional_summary s.deliveries in
    record p {
      summaries = incidents ∷ inspections ∷ services ∷ resources ∷ costs ∷ deliveries ∷ [];
      features = record {
        incidents = i || n;
        command_center = false;
        service_cost = v || r || c;
        delivery_gates = d;
        integration_readiness = false;
      };
    }

abbrev pub no_counts : CenterCounts
no_counts = record {
  critical_incidents = 0;
  open_incidents = 0;
  failed_ci_deliveries = 0;
  overdue = 0;
  unhealthy_releases = 0;
  exhausted_slos = 0;
  pending_approvals = 0;
  active_alerts = 0;
}

abbrev pub show_center : Outcome Center → Console → Console
show_center (failure m) p = record p {
  center = record { counts = no_counts; timeline = [] };
  center_error = if null m then codes "事件指挥中心加载失败" else m;
  features = record p.features { command_center = false };
}
show_center (success c) p = record p {
  center = record c { timeline = take 12 c.timeline };
  center_error = [];
  features = record p.features { command_center = true };
}

-- `loadCommandCenter`
unfoldable pub load_command_center : Reply Center → Console → Console
unfolding api_fetch
load_command_center r p = show_center (api_fetch r) p

-- `loadIntegrationReadiness`
unfoldable pub load_integration_readiness : Outcome Readiness → Console → Console
load_integration_readiness (failure m) p = record p {
  readiness_error = if null m then codes "集成就绪度加载失败" else m;
  features = record p.features { integration_readiness = false };
}
load_integration_readiness (success r) p = record p {
  readiness = r;
  readiness_error = [];
  features = record p.features { integration_readiness = true };
}

abbrev pub keys : List Tab → List Text
keys ts = map (λ (t : Tab). t.key) ts

-- The active tab is one that is drawn, or the first.
abbrev pub settle_tab : Console → Console
unfolding visible_tabs
settle_tab p =
    if elem p.active_tab (keys (visible_tabs p.permissions p.features))
    then p
    else record p { active_tab = codes "dashboard" }

abbrev pub or_first : Option ℕ → List ℕ → Option ℕ
or_first (some h) hosts = some h
or_first none [] = none
or_first none (h ∷ hosts) = some h

abbrev pub or_first_alone : List ℕ → List ℕ → List ℕ
or_first_alone (t ∷ ts) hosts = t ∷ ts
or_first_alone [] [] = []
or_first_alone [] (h ∷ hosts) = h ∷ []

-- the hosts of the three forms
abbrev pub choose_hosts : Console → Console
choose_hosts p = record p {
  command_host = or_first p.command_host p.hosts;
  task_hosts = or_first_alone p.task_hosts p.hosts;
  metric_host = or_first p.metric_host p.hosts;
  metrics = null_value;
}

abbrev pub is_some : Option ℕ → Bool
is_some none = false
is_some (some h) = true

-- `scheduleStatusRefresh`: the timer that was pending is cleared, and one is set if work is running.
unfoldable pub schedule_status_refresh : Console → Console
unfolding has_running_work
schedule_status_refresh p = record p { timer = has_running_work p.works }

abbrev pub show_initial : Initial → Console → Console
unfolding sync_approval_comments
show_initial i p = record p {
  permissions = i.permissions;
  alerts = i.alerts;
  hosts = i.hosts;
  works = i.works;
  approvals = i.approvals;
  approval_comments = sync_approval_comments i.approvals p.approval_comments;
  notifications = [];
  audit_logs = [];
}

-- the parts of `loadAll` that follow the requests made at once
abbrev pub load_lists : Server → Console → Progress
load_lists s p =
    and_then
      (await_if (granted (codes "notification") p) s.notifications
        (λ v. λ q. record q { notifications = v }) p)
      (λ q.
        await_if (granted (codes "audit") q) s.audit_logs (λ v. λ r. record r { audit_logs = v }) q)

abbrev pub load_workspace : Server → Console → Console
unfolding load_workflow_summaries load_command_center load_integration_readiness settle_tab
load_workspace s p = choose_hosts (
    settle_tab (
      load_integration_readiness s.readiness
        (load_command_center s.center (load_workflow_summaries s.summaries p))))

-- `loadMetrics`, if metrics are permitted
abbrev pub load_metrics : Server → Console → Progress
load_metrics s p =
    await_if (granted (codes "metric") p && is_some p.metric_host) s.metrics
      (λ v. λ q. record q { metrics = v }) p

abbrev pub finish_load : Server → Console → Console
unfolding schedule_status_refresh
finish_load s p = schedule_status_refresh (record p { last_loaded_at = s.clock })

-- the `try` of `loadAll`
abbrev pub load_from : Server → Outcome Initial → Console → Progress
unfolding show_initial load_workspace finish_load
load_from s (failure m) p = thrown_at m p
load_from s (success i) p =
    and_then (load_lists s (show_initial i p))
      (λ q. and_then (load_metrics s (load_workspace s q)) (λ r. going (finish_load s r)))

unfoldable pub load_all_try : Server → Console → Progress
unfolding load_from
load_all_try s p = load_from s s.initial p

abbrev pub end_load : Progress → Console
end_load (going p) = record p { loading = false }
end_load (thrown_at m p) = record p { error = m; loading = false }

unfoldable pub load_all : Server → Console → Console
unfolding load_all_try
load_all s p = end_load (load_all_try s (record p { loading = true; error = [] }))

unfoldable pub refresh : Server → Console → Console
unfolding load_all
refresh s p = record (load_all s (record p { refreshing = true; notice = [] })) {
  refreshing = false;
}

-- The timer fires, if it is set.
unfoldable pub fire : Server → Console → Console
unfolding refresh
fire s p = let q = refresh s (record p { timer = false }) in if p.timer then q else p
