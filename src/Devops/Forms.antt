-- ===== src/Devops/Forms.antt =====
-- `submitCommand` and `submitTask` of static/js/devops-vue.js, which end with the reload of the
-- list, and the texts and classes of the console.
use centos_info_collect.Base.{
  ℕ, ◌≡◌, refl, Bool, true, false, not, ◌&&◌, ◌||◌, Option, none, some, List, [], ◌∷◌, ◌++◌, Text,
  codes, null, trim, length, take, ltb, if◌then◌else◌, arith,
}
use centos_info_collect.Metric.Decimals.{to_text}
use centos_info_collect.Devops.Fetch.{Reply, Outcome, failure, success, api_fetch}
use centos_info_collect.Devops.Work.{Work}

-- The two forms, and what the two methods change.
pub record Desk : Type 0 where
  pub error : Text
  pub notice : Text
  pub command_host : Option ℕ
  pub command : Text
  pub task_name : Text
  pub task_hosts : List ℕ
  pub task_command : Text
  pub commands : List Work
  pub tasks : List Work

-- What the server says to a new command: the title of the approval it needs, or its number.
pub data Submitted : Type 0 where
  needs_approval : Text → Submitted
  recorded : ℕ → Submitted

-- The body of a request, as far as it is text and numbers.
pub record Sent : Type 0 where
  pub name : Text
  pub hosts : List ℕ
  pub command : Text

abbrev pub submitted_text : Submitted → Text
submitted_text (needs_approval title) = codes "命令已转入审批：" ++ title
submitted_text (recorded id) = codes "命令已提交：#" ++ to_text id

abbrev pub reload_commands : Outcome (List Work) → Desk → Desk
reload_commands (failure m) p = record p { error = m }
reload_commands (success ws) p = record p { commands = ws }

abbrev pub reload_tasks : Outcome (List Work) → Desk → Desk
reload_tasks (failure m) p = record p { error = m }
reload_tasks (success ws) p = record p { tasks = ws }

abbrev pub after_command : Outcome Submitted → Outcome (List Work) → Desk → Desk
after_command (failure m) list p = record p { error = m }
after_command (success s) list p =
    reload_commands list (record p { notice = submitted_text s; command = [] })

abbrev pub after_task : Outcome ℕ → Outcome (List Work) → Desk → Desk
after_task (failure m) list p = record p { error = m }
after_task (success id) list p =
    reload_tasks list
      (record p { notice = codes "批量任务已提交：#" ++ to_text id; task_name = []; task_command = [] })

-- What a method sends, if it sends anything.
abbrev pub command_sent : Desk → Option Sent
command_sent p = elim p.command_host [
  | none ↦ none
  | some h ↦
      if null (trim p.command)
      then none
      else some (record { name = []; hosts = h ∷ []; command = trim p.command })
]

abbrev pub task_sent : Desk → Option Sent
task_sent p =
    if null (trim p.task_name) || null (trim p.task_command) || null p.task_hosts
    then none
    else some
        (record { name = trim p.task_name; hosts = p.task_hosts; command = trim p.task_command })

abbrev pub cleared : Desk → Desk
cleared p = record p { error = []; notice = [] }

abbrev pub send_command : Option Sent → Reply Submitted → Reply (List Work) → Desk → Desk
unfolding api_fetch
send_command none r list p = record p { error = codes "请选择主机并输入命令" }
send_command (some body) r list p = after_command (api_fetch r) (api_fetch list) p

abbrev pub send_task : Option Sent → Reply ℕ → Reply (List Work) → Desk → Desk
unfolding api_fetch
send_task none r list p = record p { error = codes "请填写任务名称、目标主机和命令" }
send_task (some body) r list p = after_task (api_fetch r) (api_fetch list) p

-- The two replies are those to the request and to the reload.
unfoldable pub submit_command : Reply Submitted → Reply (List Work) → Desk → Desk
unfolding send_command
submit_command r list p = send_command (command_sent p) r list (cleared p)

unfoldable pub submit_task : Reply ℕ → Reply (List Work) → Desk → Desk
unfolding send_task
submit_task r list p = send_task (task_sent p) r list (cleared p)

-- `shortText`
unfoldable pub short_text : Text → ℕ → Text
short_text value n =
    let text = if null value then codes "-" else value in
    if ltb n (length text) then take n text ++ codes "..." else text

abbrev pub is_accepted : {A : Type 0} → Outcome A → Bool
is_accepted (failure m) = false
is_accepted (success a) = true

abbrev pub is_sent : Option Sent → Bool
is_sent none = false
is_sent (some body) = true

after_task-draft :
    (o : Outcome ℕ) (list : Outcome (List Work)) (p : Desk)
    → ((after_task o list p).task_name ≡ (if is_accepted o then [] else p.task_name))
      × ((after_task o list p).task_command ≡ (if is_accepted o then [] else p.task_command))
after_task-draft (failure m) list p = (refl, refl)
after_task-draft (success id) (failure m) p = (refl, refl)
after_task-draft (success id) (success ws) p = (refl, refl)

send_task-draft :
    (o : Option Sent) (r : Reply ℕ) (list : Reply (List Work)) (p : Desk)
    → let q = send_task o r list p in
      let done = is_sent o && is_accepted (api_fetch r) in
      (q.task_name ≡ (if done then [] else p.task_name))
      × (q.task_command ≡ (if done then [] else p.task_command))
unfolding send_task
send_task-draft none r list p = (refl, refl)
send_task-draft (some body) r list p = after_task-draft (api_fetch r) (api_fetch list) p

-- The name and the command of a task are cleared exactly if a request is sent and accepted, whether
-- or not the reload after it succeeds; otherwise they stay as the user has typed them. A request is
-- sent exactly if the name and the command have more than white space and a host is chosen.
pub submit_task-draft :
    (r : Reply ℕ) (list : Reply (List Work)) (p : Desk)
    → let q = submit_task r list p in
      let filled =
        not (null (trim p.task_name) || null (trim p.task_command) || null p.task_hosts) in
      let done = filled && is_accepted (api_fetch r) in
      (q.task_name ≡ (if done then [] else p.task_name))
      × (q.task_command ≡ (if done then [] else p.task_command))
unfolding submit_task
submit_task-draft r list p = ground (arith, send_task-draft (task_sent p) r list (cleared p))
