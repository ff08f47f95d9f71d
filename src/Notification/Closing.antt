-- ===== src/Notification/Closing.antt =====
-- The end of a close keeps the notifications valid.
use centos_info_collect.Base.{
  ℕ, ◌+◌, ◌≡◌, refl, subst, inl, inr, true, false, some, List, [], ◌∷◌, ℕ_eq, erase, remove, pick,
  elem, distinct, keys, length, arith, keys-erase, length-remove, elem-remove, distinct-remove,
  All-pick, List-cases, distinct-pick,
}
use centos_info_collect.Base.Int.{pos, pred_ℤ}
use centos_info_collect.Notification.{Notice, NotificationSystem, display_next, finish_hide}
use centos_info_collect.Notification.Valid.{ids, IsValid, Apart, AllShown, HasRoom, display-IsValid}

pub Apart-remove :
    (id : ℕ) (ks : List ℕ) (q : List Notice)
    → distinct ks ≡ true
    → Apart ks q
    → Apart (remove id ks) q
Apart-remove id ks [] d h = tt
Apart-remove id ks (n ∷ q) d h =
    (ground (arith, elem-remove n.id id ks d, h.0), Apart-remove id ks q d h.1)

pub AllShown-remove :
    (id : ℕ) (ks cs : List ℕ)
    → distinct ks ≡ true
    → AllShown ks cs
    → elem id cs ≡ false
    → AllShown (remove id ks) cs
unfolding elem
AllShown-remove id ks [] d h f = tt
AllShown-remove id ks (c ∷ cs) d h f =
    (ground (arith, elem-remove c id ks d, h.0), AllShown-remove id ks cs d h.1 (ground arith))

-- Taking one notice off the page leaves room for the first of the queue.
module _ (id : ℕ) (s : NotificationSystem) (v : IsValid s) (here : elem id (keys s.shown) ≡ true)
    (f : elem id s.closing ≡ false) where
  abbrev less : NotificationSystem
  less = record s {
    container = remove id s.container;
    shown = erase id s.shown;
    active = pred_ℤ s.active;
  }

  shrunk : keys less.shown ≡ remove id (keys s.shown)
  shrunk = keys-erase id s.shown v.shown_once

  fewer : length (keys less.shown) + 1 ≡ length (keys s.shown)
  fewer = rw shrunk (length-remove id (keys s.shown) here)

  uncounted : less.active ≡ pos (length (keys less.shown))
  uncounted = ground (arith, v.counted, fewer)

  closing_left : AllShown (keys less.shown) s.closing
  closing_left =
      rw shrunk (AllShown-remove id (keys s.shown) s.closing v.shown_once v.closing_shown f)

  empty-IsValid : s.queue ≡ [] → IsValid less
  empty-IsValid e = record {
    shown_once = rw shrunk (distinct-remove id (keys s.shown) v.shown_once);
    agree = rw (shrunk, v.agree) refl;
    counted = uncounted;
    bounded = omega (arith, v.bounded, fewer);
    waits = inl e;
    queued_once = v.queued_once;
    apart = rw e tt;
    closing_once = v.closing_once;
    closing_shown = closing_left;
  }

  next-HasRoom :
      (n : Notice) (rest : List Notice)
      → s.queue ≡ n ∷ rest
      → HasRoom n (record less { queue = rest })
  unfolding distinct
  next-HasRoom n rest e =
      let queued : distinct (ids (n ∷ rest)) ≡ true =
        subst (λ q. distinct (ids q) ≡ true) e v.queued_once in
      let away : Apart (keys less.shown) (n ∷ rest) =
        subst (Apart (keys less.shown)) e
          (rw shrunk (Apart-remove id (keys s.shown) s.queue v.shown_once v.apart)) in
      record {
        shown_once = rw shrunk (distinct-remove id (keys s.shown) v.shown_once);
        agree = rw (shrunk, v.agree) refl;
        counted = uncounted;
        room = omega (arith, v.bounded, fewer);
        waits = inr (ground (arith, v.waits, fewer));
        queued_once = ground (arith, queued);
        apart = away.1;
        closing_once = v.closing_once;
        closing_shown = closing_left;
        new_here = away.0;
        new_queued = ground (arith, queued);
      }

  display_next-IsValid : IsValid (display_next less)
  unfolding display_next
  display_next-IsValid = elim (List-cases s.queue) [
    | inl e ↦ rw (e, display_next) (empty-IsValid e)
    | inr (n, rest, e) ↦ rw (e, display_next) (display-IsValid n _ (next-HasRoom n rest e))
  ]

pub closing-IsValid :
    (i id : ℕ) (rest : List ℕ) (s : NotificationSystem)
    → IsValid s
    → pick i s.closing ≡ some (id, rest)
    → IsValid (finish_hide id (record s { closing = rest }))
unfolding finish_hide
closing-IsValid i id rest s v e =
    let (here, left) = All-pick _ i s.closing e v.closing_shown in
    let (once, gone) = distinct-pick i s.closing e v.closing_once in
    display_next-IsValid id (record s { closing = rest })
      (record {
        shown_once = v.shown_once;
        agree = v.agree;
        counted = v.counted;
        bounded = v.bounded;
        waits = v.waits;
        queued_once = v.queued_once;
        apart = v.apart;
        closing_once = once;
        closing_shown = left;
      })
      here gone
