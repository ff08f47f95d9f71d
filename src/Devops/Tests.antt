-- ===== src/Devops/Tests.antt =====
-- The console of development and operations at concrete answers of the server.
use Prim.Native.Nat.{min}
use centos_info_collect.Base.{
  ℕ, ◌≡◌, refl, Bool, true, false, Text, none, List, [], ◌∷◌, codes, tally, length, elem, ℕ_eq,
}
use centos_info_collect.Metric.Values.{null_value}
use centos_info_collect.Table.Sorting
use centos_info_collect.Devops.Fetch.{Reply, thrown, Outcome, failure}
use centos_info_collect.Devops.Work
use centos_info_collect.Devops.Work.{Alert, Approval, Work, Works, CenterCounts}
use centos_info_collect.Devops.Work.Priority
use centos_info_collect.Devops.Work.Active
use centos_info_collect.Devops.Tabs
use centos_info_collect.Devops.Comments
use centos_info_collect.Devops.Load
use centos_info_collect.Devops.Load.Stages
use centos_info_collect.Devops.Load.Polling
use centos_info_collect.Devops.Approvals

abbrev alert : ℕ → Text → Text → Alert
alert id level status = record {
  id = id;
  message = [];
  host_name = [];
  level = level;
  level_label = [];
  created_at = [];
  status = status;
}

abbrev approval : ℕ → Text → Approval
approval id comment = record {
  id = id;
  title = [];
  request_type_label = [];
  requester = [];
  created_at = [];
  status = codes "pending";
  comment = comment;
}

abbrev work : ℕ → Text → Work
work id status = record {
  id = id;
  name = [];
  host_name = [];
  host_count = 1;
  app_name = [];
  version = [];
  created_at = [];
  status = status;
  status_label = [];
}

abbrev alerts : List Alert
alerts =
    alert 1 (codes "warning") (codes "open")
    ∷ alert 2 (codes "critical") (codes "closed")
    ∷ alert 3 (codes "critical") (codes "open")
    ∷ []

abbrev approvals : List Approval
approvals = approval 7 (codes "please") ∷ approval 8 [] ∷ []

priority_items-IsUrgent_example :
    Sorting.IsSorted Work.before (Work.priority_items alerts approvals)
    × (tally (Priority.is_below 2) (Work.priority_items alerts approvals)
        ≡ min 6 (tally (Priority.is_below 2) (Work.all_items alerts approvals)))
priority_items-IsUrgent_example = Priority.priority_items-IsUrgent alerts approvals 2

abbrev works : Works
works = record {
  commands = work 1 (codes "running") ∷ work 2 (codes "success") ∷ [];
  tasks = work 3 (codes "pending") ∷ [];
  deployments = [];
  files = work 4 (codes "running") ∷ [];
}

active_work-agrees_example :
    (length (Work.active_work_items works) ≡ 2) × (Work.has_running_work works ≡ true)
unfolding Work.active_work_count Work.is_active elem
active_work-agrees_example = Active.active_work-agrees works

abbrev features : Tabs.Features
features = record {
  incidents = true;
  command_center = false;
  service_cost = false;
  delivery_gates = false;
  integration_readiness = true;
}

abbrev none_of : {A : Type 0} → Reply A
none_of = thrown (codes "offline")

abbrev initial : Load.Initial
initial = record {
  permissions = codes "approval" ∷ [];
  alerts = alerts;
  hosts = 5 ∷ [];
  works = works;
  approvals = approvals;
}

abbrev server : Outcome Load.Initial → Load.Server
server i = record {
  initial = i;
  notifications = none_of;
  audit_logs = none_of;
  summaries = record {
    incidents = none_of;
    inspections = none_of;
    services = none_of;
    resources = none_of;
    costs = none_of;
    deliveries = none_of;
  };
  center = none_of;
  readiness = failure (codes "offline");
  metrics = none_of;
  clock = codes "10:00:00";
}

abbrev console : Bool → Load.Console
console timer = record {
  loading = false;
  refreshing = false;
  active_tab = codes "audit";
  error = [];
  notice = [];
  last_loaded_at = [];
  permissions = [];
  alerts = [];
  hosts = [];
  works = works;
  approvals = [];
  approval_comments = [];
  notifications = [];
  audit_logs = [];
  summaries = [];
  features = features;
  center = record { counts = Load.no_counts; timeline = [] };
  center_error = [];
  readiness = record {
    worker = null_value;
    connectors = [];
    collections = [];
    blueprints = [];
    plans = [];
  };
  readiness_error = [];
  metrics = null_value;
  command_host = none;
  task_hosts = [];
  metric_host = none;
  timer = timer;
}

abbrev desk : Approvals.Desk
desk = record {
  approvals = approvals;
  comments = [];
  permissions = [];
  busy = none;
  error = [];
  notice = [];
  in_flight = [];
}

abbrev decisions : List Approvals.Event
decisions =
    Approvals.decides 7 (codes "approve")
    ∷ Approvals.decides 8 (codes "reject")
    ∷ Approvals.replies 0 (record { decision = none_of; reload = failure (codes "offline") })
    ∷ []

run-IsExclusive_example : Approvals.IsExclusive (Approvals.run desk decisions)
run-IsExclusive_example = Approvals.run-IsExclusive desk decisions refl
