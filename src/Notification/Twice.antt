-- ===== src/Notification/Twice.antt =====
-- Closing a notice a second time, while its closing is under way.
use centos_info_collect.Base.{
  ℕ, ◌∙◌, ◌≡◌, true, false, List, [], ◌∷◌, erase, remove, elem, keys, length, arith, keys-erase,
  keys-erase_absent, elem-remove, length-remove, has-keys, ℕ_eq,
}
use centos_info_collect.Base.Int.{pos, pred_ℤ}
use centos_info_collect.Notification.{
  NotificationSystem, Event, closes, closing_fires, hide, display_next, finish_hide, run,
}
use centos_info_collect.Notification.Valid.{IsValid}

abbrev pub close_twice : ℕ → List Event
close_twice id = closes id ∷ closes id ∷ closing_fires 0 ∷ closing_fires 0 ∷ []

module _ (id : ℕ) (s : NotificationSystem) (v : IsValid s) (here : elem id (keys s.shown) ≡ true)
    (idle : s.closing ≡ []) (alone : s.queue ≡ []) where
  run-close_twice : run s (close_twice id) ≡ record s {
    shown = erase id (erase id s.shown);
    container = remove id (remove id s.container);
    active = pred_ℤ (pred_ℤ s.active);
    closing = [];
  }
  unfolding run hide finish_hide display_next
  run-close_twice = ground (arith, has-keys id s.shown, idle, alone)

  left : keys (erase id (erase id s.shown)) ≡ remove id (keys s.shown)
  left =
      let once = keys-erase id s.shown v.shown_once in
      let gone : elem id (keys (erase id s.shown)) ≡ false =
        rw once (ground (arith, elem-remove id id (keys s.shown) v.shown_once)) in
      keys-erase_absent id (erase id s.shown) gone ∙ once

  -- Of a system with no queue and no closing under way, where a notice on the page is closed twice
  -- before its closing ends, the counter ends up one below the number of notices on the page.
  pub active-close_twice :
      (run s (close_twice id)).active ≡ pred_ℤ (pos (length (keys (run s (close_twice id)).shown)))
  active-close_twice =
      rw (run-close_twice, left) (ground (arith, v.counted, length-remove id (keys s.shown) here))
