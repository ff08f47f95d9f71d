-- ===== src/Notification/Showing.antt =====
-- `show` and `hide` keep the notifications valid.
use centos_info_collect.Base.{
  ℕ, ◌≤◌, ◌<◌, ◌≡◌, refl, ap, inl, inr, false, List, [], ◌∷◌, ◌++◌, ℕ_eq, has, elem, keys, length,
  All-append, arith, Bool-cases, distinct-snoc, has-keys,
}
use native.Mathlib.Decide.{dec_lt}
use centos_info_collect.Notification.{
  Notice, NotificationSystem, max_visible, display_notification, show, hide,
}
use centos_info_collect.Notification.Valid.{ids, IsValid, display-IsValid}

pub ids-snoc : (n : Notice) (q : List Notice) → ids (q ++ n ∷ []) ≡ ids q ++ n.id ∷ []
ids-snoc n [] = refl
ids-snoc n (m ∷ q) = ap (λ l. m.id ∷ l) (ids-snoc n q)

pub show_full :
    (n : Notice) (s : NotificationSystem)
    → IsValid s
    → max_visible ≤ length (keys s.shown)
    → show n s ≡ record s { queue = s.queue ++ n ∷ [] }
unfolding show
show_full n s v h = ground arith

pub show_room :
    (n : Notice) (s : NotificationSystem)
    → IsValid s
    → length (keys s.shown) < max_visible
    → show n s ≡ display_notification n s
unfolding show
show_room n s v h = ground arith

pub queue-IsValid :
    (n : Notice) (s : NotificationSystem)
    → IsValid s
    → max_visible ≤ length (keys s.shown)
    → elem n.id (keys s.shown) ≡ false
    → elem n.id (ids s.queue) ≡ false
    → IsValid (record s { queue = s.queue ++ n ∷ [] })
queue-IsValid n s v full f q = record {
  shown_once = v.shown_once;
  agree = v.agree;
  counted = v.counted;
  bounded = v.bounded;
  waits = inr (omega (arith, v.bounded));
  queued_once = rw ids-snoc (ground (arith, distinct-snoc n.id (ids s.queue), v.queued_once));
  apart = All-append _ s.queue (n ∷ []) v.apart (f, tt);
  closing_once = v.closing_once;
  closing_shown = v.closing_shown;
}

pub show-IsValid :
    (n : Notice) (s : NotificationSystem)
    → IsValid s
    → elem n.id (keys s.shown) ≡ false
    → elem n.id (ids s.queue) ≡ false
    → IsValid (show n s)
show-IsValid n s v f q = elim (dec_lt (length (keys s.shown)) 3) [
  | no full ↦
      let le : max_visible ≤ length (keys s.shown) = omega arith in
      rw (show_full n s v le) (queue-IsValid n s v le f q)
  | yes room ↦ rw (show_room n s v room) (
      display-IsValid n s (record {
        shown_once = v.shown_once;
        agree = v.agree;
        counted = v.counted;
        room = room;
        waits = ground (arith, v.waits);
        queued_once = v.queued_once;
        apart = v.apart;
        closing_once = v.closing_once;
        closing_shown = v.closing_shown;
        new_here = f;
        new_queued = q;
      }))
]

pub hide-IsValid :
    (id : ℕ) (s : NotificationSystem) → IsValid s → elem id s.closing ≡ false → IsValid (hide id s)
unfolding hide
hide-IsValid id s v f = elim (Bool-cases (has id s.shown)) [
  | inr gone ↦ rw gone v
  | inl here ↦ rw here (record {
    shown_once = v.shown_once;
    agree = v.agree;
    counted = v.counted;
    bounded = v.bounded;
    waits = v.waits;
    queued_once = v.queued_once;
    apart = v.apart;
    closing_once = ground (arith, distinct-snoc id s.closing, v.closing_once);
    closing_shown =
        All-append _ s.closing (id ∷ []) v.closing_shown (rw (← has-keys id s.shown) here, tt);
  })
]
