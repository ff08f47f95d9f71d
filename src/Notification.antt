-- ===== src/Notification.antt =====
-- `NotificationSystem` and `ModernNotificationSystem` of static/js/custom.js. The identifiers that
-- `Utils.generateId` draws are numbers given by the environment, and so is the order in which the
-- pending timers fire.
pub mod Valid
pub mod Showing
pub mod Closing
pub mod Invariant
pub mod Twice
mod Tests
use centos_info_collect.Base.{
  ℕ, Bool, true, false, not, ◌&&◌, Option, none, some, List, [], ◌∷◌, ◌++◌, Text, ltb, ◌==◌, ℕ_eq,
  has, insert, erase, remove, pick, if◌then◌else◌,
}
use centos_info_collect.Base.Int.{ℤ, pos, leb_ℤ, succ_ℤ, pred_ℤ}

pub record Notice : Type 0 where
  pub id : ℕ
  pub message : Text
  pub type : Text
  pub duration : ℕ
  pub persistent : Bool
  pub actions : List (Text × Text)

-- `AppConfig.notifications.maxVisible`
abbrev pub max_visible : ℕ
max_visible = 3

-- `shown` is the map `notifications`, `container` the children of the container by the notice
-- that they show, `closing` and `auto` the pending timers of `hide` and of the automatic close.
pub record NotificationSystem : Type 0 where
  pub shown : List (ℕ × Notice)
  pub container : List ℕ
  pub queue : List Notice
  pub active : ℤ
  pub closing : List ℕ
  pub auto : List ℕ

abbrev pub new : NotificationSystem
new = record { shown = []; container = []; queue = []; active = pos 0; closing = []; auto = [] }

abbrev pub closes_itself : Notice → Bool
closes_itself n = ltb 0 n.duration && not n.persistent

unfoldable pub display_notification : Notice → NotificationSystem → NotificationSystem
display_notification n s = record s {
  shown = insert n.id n s.shown;
  container = s.container ++ n.id ∷ [];
  active = succ_ℤ s.active;
  auto = if closes_itself n then s.auto ++ n.id ∷ [] else s.auto;
}

unfoldable pub show : Notice → NotificationSystem → NotificationSystem
unfolding display_notification
show n s =
    if leb_ℤ (pos max_visible) s.active
    then record s { queue = s.queue ++ n ∷ [] }
    else display_notification n s

unfoldable pub hide : ℕ → NotificationSystem → NotificationSystem
hide id s = if has id s.shown then record s { closing = s.closing ++ id ∷ [] } else s

-- the next notice of the queue, if there is one
unfoldable pub display_next : NotificationSystem → NotificationSystem
unfolding display_notification
display_next s = elim s.queue [
  | [] ↦ s
  | n ∷ rest ↦ display_notification n (record s { queue = rest })
]

-- the callback of the timer that `hide` sets
unfoldable pub finish_hide : ℕ → NotificationSystem → NotificationSystem
unfolding display_next
finish_hide id s = display_next (record s {
  container = remove id s.container;
  shown = erase id s.shown;
  active = pred_ℤ s.active;
})

-- What happens to a system: a call of `show`, a click on a close button, or a timer that fires, the
-- one at the given place among the pending ones.
pub data Event : Type 0 where
  shows : Notice → Event
  closes : ℕ → Event
  auto_fires : ℕ → Event
  closing_fires : ℕ → Event

unfoldable pub step : NotificationSystem → Event → NotificationSystem
unfolding show hide finish_hide
step s (shows n) = show n s
step s (closes id) = hide id s
step s (auto_fires i) = elim (pick i s.auto) [
  | none ↦ s
  | some (id, rest) ↦ hide id (record s { auto = rest })
]
step s (closing_fires i) = elim (pick i s.closing) [
  | none ↦ s
  | some (id, rest) ↦ finish_hide id (record s { closing = rest })
]

unfoldable pub run : NotificationSystem → List Event → NotificationSystem
unfolding step
run s [] = s
run s (e ∷ es) = run (step s e) es
