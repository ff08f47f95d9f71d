-- ===== src/Devops/Load/Stages.antt =====
-- What `loadAll` of static/js/devops-vue.js leaves when it comes to its end and when it throws.
use centos_info_collect.Base.{◌≡◌, Bool, true, elem, ℕ_eq, list_eq}
use centos_info_collect.Devops.Work.{has_running_work}
use centos_info_collect.Devops.Tabs.{visible_tabs}
use centos_info_collect.Devops.Load.{Console, Progress, going, thrown_at, keys}

-- The active tab is one that is drawn.
abbrev pub IsShown : Console → Type 0
IsShown p = elem p.active_tab (keys (visible_tabs p.permissions p.features)) ≡ true

-- What holds of the console at the end and where a request has thrown.
abbrev pub Either : (Console → Type 0) → (Console → Type 0) → Progress → Type 0
Either P Q (going p) = P p
Either P Q (thrown_at m p) = Q p

-- The flag of the timer is this one.
abbrev pub HasTimer : Bool → Console → Type 0
HasTimer v p = p.timer ≡ v

abbrev IsReady : Bool → Console → Type 0
IsReady v p = IsShown p × HasTimer v p

-- At its end an active tab is drawn and a timer is set exactly if work is running.
abbrev pub IsLoaded : Console → Type 0
IsLoaded p = IsShown p × (p.timer ≡ has_running_work p.works)
