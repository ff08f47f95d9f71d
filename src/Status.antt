-- ===== src/Status.antt =====
-- The class `ServerStatusManager` of static/js/connection-test.js: the badges of the servers, the
-- cache of their states, and the timer of the automatic update. A check of one server begins and
-- ends in two steps, so that checks of several servers interleave.
pub mod Laws
pub mod Dashboard
mod Tests
use centos_info_collect.Base.{
  ℕ, ◌+◌, Bool, true, false, not, Option, none, some, List, [], ◌∷◌, ◌++◌, Text, codes, trim, null,
  get, insert, remove, ◌==◌, ℕ_eq, list_eq, if◌then◌else◌,
}
use centos_info_collect.Connection.{Outcome, resolved, rejected}

-- The elements that show one server: the badge, the indicator and the time of the last check,
-- where the page has them.
pub record StatusView : Type 0 where
  pub inner_html : Text
  pub class_name : Text
  pub indicator : Option Text
  pub last_check : Option Text

pub record CachedStatus : Type 0 where
  pub status : Text
  pub last_check : Text
  pub message : Text

-- `views` has an entry for each server with a badge. `running` are the intervals that the browser
-- runs, by the numbers of `setInterval`, which draws `next_timer`.
pub record ServerStatusManager : Type 0 where
  pub views : List (Text × StatusView)
  pub status_cache : List (Text × CachedStatus)
  pub auto_update_timer : Option ℕ
  pub running : List ℕ
  pub next_timer : ℕ

-- an element that is there gets the text
abbrev pub put : Text → Option Text → Option Text
put text none = none
put text (some _) = some text

abbrev pub paint : Text → Text → Text → StatusView → StatusView
paint html badge dot w = record w {
  inner_html = html;
  class_name = badge;
  indicator = put dot w.indicator;
}

unfoldable pub set_status_checking : StatusView → StatusView
set_status_checking =
    paint (codes "<i class=\"fas fa-spinner fa-spin me-1\"></i>检查中") (codes "badge bg-secondary")
      (codes "status-indicator server-status me-2")

unfoldable pub set_status_online : StatusView → StatusView
set_status_online =
    paint (codes "<i class=\"fas fa-check-circle me-1\"></i>在线") (codes "badge bg-success")
      (codes "status-indicator server-status me-2 status-online")

unfoldable pub set_status_offline : StatusView → StatusView
set_status_offline =
    paint (codes "<i class=\"fas fa-times-circle me-1\"></i>离线") (codes "badge bg-danger")
      (codes "status-indicator server-status me-2 status-offline")

unfoldable pub set_status_error : StatusView → StatusView
set_status_error =
    paint (codes "<i class=\"fas fa-exclamation-triangle me-1\"></i>错误") (codes "badge bg-warning")
      (codes "status-indicator server-status me-2 status-warning")

abbrev pub set_last_check : Text → StatusView → StatusView
set_last_check text w = record w { last_check = put text w.last_check }

-- a change of the view of one server, if it has a badge
unfoldable pub on_view :
    Text → (StatusView → StatusView) → ServerStatusManager → ServerStatusManager
on_view id f m = elim (get id m.views) [
  | none ↦ m
  | some w ↦ record m { views = insert id (f w) m.views }
]

-- `updateServerStatus` up to its `await`
unfoldable pub begin_update : Text → ServerStatusManager → ServerStatusManager
unfolding on_view
begin_update id m = on_view id set_status_checking m

abbrev pub shown_as : Bool → StatusView → StatusView
shown_as true = set_status_online
shown_as false = set_status_offline

abbrev pub status_name : Bool → Text
status_name true = codes "online"
status_name false = codes "offline"

abbrev pub remember : Text → CachedStatus → ServerStatusManager → ServerStatusManager
remember id c m = record m { status_cache = insert id c m.status_cache }

-- The rest of `updateServerStatus`, for a server with a badge; `time` is what the clock shows.
unfoldable pub end_update : Text → Outcome → Text → ServerStatusManager → ServerStatusManager
unfolding on_view
end_update id (resolved r) time m =
    remember id (record { status = status_name r.success; last_check = time; message = r.message })
      (on_view id (λ w. set_last_check time (shown_as r.success w)) m)
end_update id (rejected reason) time m =
    on_view id (λ w. set_last_check (codes "检查失败") (set_status_error w)) m

unfoldable pub get_cached_status : Text → ServerStatusManager → Option CachedStatus
get_cached_status id m = get id m.status_cache

-- One row of the table: the server and the text of its address cell, if there is one.
pub record ServerRow : Type 0 where
  pub id : Text
  pub ip : Option Text

abbrev pub row_ip : ServerRow → Text
row_ip row = elim row.ip [ none ↦ [] | some text ↦ trim text ]

-- the servers that `updateAllServerStatus` goes through, one after the other
unfoldable pub servers_to_check : List ServerRow → List Text
servers_to_check [] = []
servers_to_check (row ∷ rows) =
    if null (row_ip row) then servers_to_check rows else row.id ∷ servers_to_check rows

-- `fetchAndUpdateServerStatus`, with the draw of `Math.random` and the clock as inputs
unfoldable pub fetch_and_update : Text → Bool → Text → ServerStatusManager → ServerStatusManager
unfolding on_view
fetch_and_update id is_online time m =
    on_view id (λ w. set_last_check time (shown_as is_online (set_status_checking w))) m

unfoldable pub stop_auto_update : ServerStatusManager → ServerStatusManager
stop_auto_update m = elim m.auto_update_timer [
  | none ↦ m
  | some timer ↦ record m { auto_update_timer = none; running = remove timer m.running }
]

unfoldable pub start_auto_update : ServerStatusManager → ServerStatusManager
unfolding stop_auto_update
start_auto_update m =
    let stopped = stop_auto_update m in
    record stopped {
      auto_update_timer = some stopped.next_timer;
      running = stopped.running ++ stopped.next_timer ∷ [];
      next_timer = stopped.next_timer + 1;
    }

-- What happens to a manager.
pub data Event : Type 0 where
  begins : Text → Event
  ends : Text → Outcome → Text → Event
  fetches : Text → Bool → Text → Event
  starts stops : Event

unfoldable pub step : ServerStatusManager → Event → ServerStatusManager
unfolding begin_update end_update fetch_and_update stop_auto_update start_auto_update
step m (begins id) = begin_update id m
step m (ends id outcome time) = end_update id outcome time m
step m (fetches id is_online time) = fetch_and_update id is_online time m
step m starts = start_auto_update m
step m stops = stop_auto_update m

unfoldable pub run : ServerStatusManager → List Event → ServerStatusManager
unfolding step
run m [] = m
run m (e ∷ es) = run (step m e) es
