-- ===== src/Notification/Tests.antt =====
-- The notifications at concrete histories.
use centos_info_collect.Base.{
  ℕ, ◌≡◌, refl, false, List, [], ◌∷◌, codes, keys, length, elem, has, insert, erase, remove, ℕ_eq,
}
use centos_info_collect.Base.Int.{pos, pred_ℤ}
use centos_info_collect.Notification.{
  Notice, NotificationSystem, Event, shows, closes, auto_fires, closing_fires, new, run, step, show,
  display_notification,
}
use centos_info_collect.Notification.Valid.{IsOrderly, IsValid}
use centos_info_collect.Notification.Invariant.{IsOrderlyRun, run-new-IsValid}
use centos_info_collect.Notification.Twice.{close_twice, active-close_twice}

abbrev notice : ℕ → Notice
notice id = record {
  id = id;
  message = codes "ok";
  type = codes "info";
  duration = 5000;
  persistent = false;
  actions = [];
}

abbrev four : List Event
four = shows (notice 1) ∷ shows (notice 2) ∷ shows (notice 3) ∷ shows (notice 4) ∷ []

abbrev history : List Event
history = shows (notice 1) ∷ shows (notice 2) ∷ auto_fires 0 ∷ closing_fires 0 ∷ []

history-IsOrderlyRun : IsOrderlyRun new history
unfolding IsOrderlyRun IsOrderly step show display_notification elem insert
history-IsOrderlyRun = ((refl, refl), ((refl, refl), (λ id rest e. refl, (tt, tt))))

run-new-IsValid_example : IsValid (run new history)
run-new-IsValid_example = run-new-IsValid history history-IsOrderlyRun

-- The fourth notice waits, and is shown when the first has gone.
abbrev then_one_goes : List Event
then_one_goes =
    shows (notice 1)
    ∷ shows (notice 2)
    ∷ shows (notice 3)
    ∷ shows (notice 4)
    ∷ closes 1
    ∷ closing_fires 0
    ∷ []

fourth_waits : keys (run new four).shown ≡ 1 ∷ 2 ∷ 3 ∷ []
unfolding run insert
fourth_waits = refl

fourth_follows : keys (run new then_one_goes).shown ≡ 2 ∷ 3 ∷ 4 ∷ []
unfolding run insert has erase remove
fourth_follows = refl

abbrev one_shown : NotificationSystem
one_shown = run new (shows (notice 1) ∷ [])

one_shown-IsValid : IsValid one_shown
unfolding run insert IsOrderlyRun IsOrderly elem
one_shown-IsValid = run-new-IsValid (shows (notice 1) ∷ []) ((refl, refl), tt)

active-close_twice_example :
    (run one_shown (close_twice 1)).active
    ≡ pred_ℤ (pos (length (keys (run one_shown (close_twice 1)).shown)))
unfolding run insert elem
active-close_twice_example = active-close_twice 1 one_shown one_shown-IsValid refl refl refl

-- After one double close, four notices are on a page meant for three.
overfull :
    length (
      keys
        (run new (
          shows (notice 1) ∷ closes 1 ∷ closes 1 ∷ closing_fires 0 ∷ closing_fires 0 ∷ four)).shown)
    ≡ 4
unfolding run insert has erase remove
overfull = refl
