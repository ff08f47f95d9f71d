-- ===== src/Devops/Work.antt =====
-- The computed lists of the console of static/js/devops-vue.js: `recentAlerts`, `pendingApprovals`,
-- `priorityItems`, `activeWorkItems`, `activeWorkCount`, `hasRunningWork` and `commandCenterRisk`.
use centos_info_collect.Base.{
  ℕ, ◌+◌, Bool, true, false, not, ◌&&◌, ◌||◌, List, [], ◌∷◌, ◌++◌, Text, codes, null, trim, map,
  select, any, elem, take, length, ltb, ◌==◌, ℕ_eq, list_eq, if◌then◌else◌,
}
use centos_info_collect.Metric.Decimals.{to_text}
use centos_info_collect.Table.Sorting.{sort_by}
pub mod Priority
pub mod Active

-- What the server sends of an alert, of an approval and of a command, a task, a deployment or a
-- file. A text that is missing is empty.
pub record Alert : Type 0 where
  pub id : ℕ
  pub message : Text
  pub host_name : Text
  pub level : Text
  pub level_label : Text
  pub created_at : Text
  pub status : Text

pub record Approval : Type 0 where
  pub id : ℕ
  pub title : Text
  pub request_type_label : Text
  pub requester : Text
  pub created_at : Text
  pub status : Text
  pub comment : Text

pub record Work : Type 0 where
  pub id : ℕ
  pub name : Text
  pub host_name : Text
  pub host_count : ℕ
  pub app_name : Text
  pub version : Text
  pub created_at : Text
  pub status : Text
  pub status_label : Text

-- a row of the lists `priorityItems` and `activeWorkItems`, the second of which has no priority
pub record Item : Type 0 where
  pub key : Text
  pub kind : Text
  pub title : Text
  pub meta : List Text
  pub status : Text
  pub status_label : Text
  pub priority : ℕ

abbrev pub or_text : Text → Text → Text
or_text s t = if null s then t else s

-- `[...].filter(Boolean)`
abbrev pub present : List Text → List Text
present ts = select (λ t. not (null t)) ts

unfoldable pub recent_alerts : List Alert → List Alert
recent_alerts alerts =
    select (λ a. not (elem a.status (codes "resolved" ∷ codes "closed" ∷ codes "silenced" ∷ [])))
      alerts

unfoldable pub pending_approvals : List Approval → List Approval
pending_approvals approvals = select (λ a. a.status == codes "pending") approvals

abbrev pub alert_item : Alert → Item
alert_item a = record {
  key = codes "alert-" ++ to_text a.id;
  kind = codes "告警";
  title = or_text a.message (codes "未命名告警");
  meta = present (a.host_name ∷ or_text a.level_label a.level ∷ a.created_at ∷ []);
  status = if a.level == codes "critical" then codes "failed" else codes "pending";
  status_label = or_text a.level_label (codes "待处理");
  priority = if a.level == codes "critical" then 0 else if a.level == codes "warning" then 1 else 2;
}

abbrev pub approval_item : Approval → Item
approval_item a = record {
  key = codes "approval-" ++ to_text a.id;
  kind = codes "审批";
  title = or_text a.title (codes "审批 #" ++ to_text a.id);
  meta = present (a.request_type_label ∷ a.requester ∷ a.created_at ∷ []);
  status = codes "pending";
  status_label = codes "待审批";
  priority = 3;
}

-- The comparison is negative.
abbrev pub before : Item → Item → Bool
before left right = ltb left.priority right.priority

-- the items of both kinds, in the order of the code
abbrev pub all_items : List Alert → List Approval → List Item
unfolding recent_alerts pending_approvals
all_items alerts approvals =
    map alert_item (recent_alerts alerts) ++ map approval_item (pending_approvals approvals)

unfoldable pub priority_items : List Alert → List Approval → List Item
unfolding all_items
priority_items alerts approvals = take 6 (sort_by before (all_items alerts approvals))

-- A command, a task or a deployment that has not ended.
unfoldable pub is_active : Work → Bool
is_active w = elem w.status (codes "pending" ∷ codes "running" ∷ [])

abbrev pub work_item : Text → Text → Text → List Text → Work → Item
work_item prefix kind title meta w = record {
  key = prefix ++ to_text w.id;
  kind = kind;
  title = title;
  meta = present meta;
  status = w.status;
  status_label = or_text w.status_label w.status;
  priority = 0;
}

abbrev pub command_item : Work → Item
command_item w =
    work_item (codes "command-") (codes "命令") (codes "命令 #" ++ to_text w.id)
      (w.host_name ∷ w.created_at ∷ []) w

abbrev pub hosts_text : Work → Text
hosts_text w = to_text w.host_count ++ codes " 台主机"

abbrev pub task_item : Work → Item
task_item w =
    work_item (codes "task-") (codes "任务") (or_text w.name (codes "任务 #" ++ to_text w.id))
      (hosts_text w ∷ w.created_at ∷ []) w

abbrev pub deployment_item : Work → Item
deployment_item w =
    work_item (codes "deployment-") (codes "发布")
      (trim (or_text w.app_name (codes "应用") ++ (codes " " ++ w.version)))
      (hosts_text w ∷ w.created_at ∷ []) w

-- the work of one console
pub record Works : Type 0 where
  pub commands : List Work
  pub tasks : List Work
  pub deployments : List Work
  pub files : List Work

unfoldable pub active_work_items : Works → List Item
unfolding is_active
active_work_items w = take 6 (
    map command_item (select is_active w.commands)
    ++ (map task_item (select is_active w.tasks)
        ++ map deployment_item (select is_active w.deployments)))

unfoldable pub active_work_count : Works → ℕ
unfolding is_active
active_work_count w =
    length (select is_active w.commands)
    + length (select is_active w.tasks)
    + length (select is_active w.deployments)

unfoldable pub has_running_work : Works → Bool
unfolding is_active
has_running_work w =
    any is_active w.commands
    || any is_active w.tasks
    || any is_active w.deployments
    || any is_active w.files

-- The counts of the command center, with those that are missing as 0.
pub record CenterCounts : Type 0 where
  pub critical_incidents : ℕ
  pub open_incidents : ℕ
  pub failed_ci_deliveries : ℕ
  pub overdue : ℕ
  pub unhealthy_releases : ℕ
  pub exhausted_slos : ℕ
  pub pending_approvals : ℕ
  pub active_alerts : ℕ

pub data Risk : Type 0 where
  critical : Risk
  warning : Risk
  healthy : Risk

unfoldable pub command_center_risk : CenterCounts → Risk
command_center_risk c =
    if ltb 0 c.critical_incidents
      || ltb 0 c.open_incidents
      || ltb 0 c.failed_ci_deliveries
      || ltb 0 c.overdue
    then critical
    else if ltb 0 c.unhealthy_releases
        || ltb 0 c.exhausted_slos
        || ltb 0 c.pending_approvals
        || ltb 0 c.active_alerts
    then warning
    else healthy
