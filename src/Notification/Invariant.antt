-- ===== src/Notification/Invariant.antt =====
-- The invariant of the notifications, for histories in which no notice is closed twice.
use centos_info_collect.Base.{
  refl, inl, inr, List, [], ◌∷◌, ℕ_eq, pick, distinct, arith, Option-cases,
}
use centos_info_collect.Notification.{
  NotificationSystem, Event, shows, closes, auto_fires, closing_fires, new, step, run,
}
use centos_info_collect.Notification.Valid.{IsValid, IsOrderly}
use centos_info_collect.Notification.Showing.{show-IsValid, hide-IsValid}
use centos_info_collect.Notification.Closing.{closing-IsValid}

-- Every orderly event keeps the invariant.
pub step-IsValid :
    (s : NotificationSystem) (e : Event) → IsValid s → IsOrderly s e → IsValid (step s e)
unfolding step IsOrderly
step-IsValid s (shows n) v o = show-IsValid n s v o.0 o.1
step-IsValid s (closes id) v o = hide-IsValid id s v o
step-IsValid s (auto_fires i) v o = elim (Option-cases (pick i s.auto)) [
  | inl e ↦ rw (e, step) v
  | inr ((id, rest), e) ↦
      rw (e, step)
        (hide-IsValid id (record s { auto = rest })
          (record {
            shown_once = v.shown_once;
            agree = v.agree;
            counted = v.counted;
            bounded = v.bounded;
            waits = v.waits;
            queued_once = v.queued_once;
            apart = v.apart;
            closing_once = v.closing_once;
            closing_shown = v.closing_shown;
          })
          (o id rest e))
]
step-IsValid s (closing_fires i) v o = elim (Option-cases (pick i s.closing)) [
  | inl e ↦ rw (e, step) v
  | inr ((id, rest), e) ↦ rw (e, step) (closing-IsValid i id rest s v e)
]

-- A history in which every event is orderly at the system that it meets.
unfoldable pub IsOrderlyRun : NotificationSystem → List Event → Type 0
IsOrderlyRun s [] = Unit
IsOrderlyRun s (e ∷ es) = IsOrderly s e × IsOrderlyRun (step s e) es

pub run-IsValid :
    (s : NotificationSystem) (es : List Event) → IsValid s → IsOrderlyRun s es → IsValid (run s es)
unfolding run IsOrderlyRun
run-IsValid s [] v o = v
run-IsValid s (e ∷ es) v o = run-IsValid (step s e) es (step-IsValid s e v o.0) o.1

pub new-IsValid : IsValid new
unfolding distinct
new-IsValid = record {
  shown_once = refl;
  agree = refl;
  counted = refl;
  bounded = omega arith;
  waits = inl refl;
  queued_once = refl;
  apart = tt;
  closing_once = refl;
  closing_shown = tt;
}

-- After every history in which identifiers are new and no notice is closed while it is being
-- closed: the map and the container hold the same notices, the counter counts them, at most
-- `max_visible` are on the page, and a notice waits in the queue only while the page is full.
pub run-new-IsValid : (es : List Event) → IsOrderlyRun new es → IsValid (run new es)
run-new-IsValid es o = run-IsValid new es new-IsValid o
