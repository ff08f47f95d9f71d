-- ===== src/Notification/Valid.antt =====
-- What holds of the notifications after every orderly history, and the display of a notice.
use centos_info_collect.Base.{
  ℕ, ◌+◌, ◌≤◌, ◌<◌, ◌≡◌, refl, ◌⊎◌, true, false, some, List, [], ◌∷◌, ◌++◌, map, ℕ_eq, pick, elem,
  distinct, keys, length, length-append, All, arith, elem-snoc, distinct-snoc, keys-insert_new,
}
use centos_info_collect.Base.Int.{pos}
use centos_info_collect.Notification.{
  Notice, NotificationSystem, Event, shows, closes, auto_fires, closing_fires, max_visible,
  display_notification,
}

abbrev pub ids : List Notice → List ℕ
ids = map (λ n. n.id)

-- Every notice on the page is in the map and in the container; the counter counts them; no more
-- than the maximum are on the page; a notice waits only while the page is full; and each pending
-- timer of `hide` is for a notice on the page of its own.
pub record IsValid (s : NotificationSystem) : Type 0 where
  pub shown_once : distinct (keys s.shown) ≡ true
  pub agree : s.container ≡ keys s.shown
  pub counted : s.active ≡ pos (length (keys s.shown))
  pub bounded : length (keys s.shown) ≤ max_visible
  pub waits : (s.queue ≡ []) ⊎ (length (keys s.shown) ≡ max_visible)
  pub queued_once : distinct (ids s.queue) ≡ true
  pub apart : All (λ n. elem n.id (keys s.shown) ≡ false) s.queue
  pub closing_once : distinct s.closing ≡ true
  pub closing_shown : All (λ id. elem id (keys s.shown) ≡ true) s.closing

-- A new notice has a new identifier, and what is closed, by the user or by its timer, is not being
-- closed already.
unfoldable pub IsOrderly : NotificationSystem → Event → Type 0
IsOrderly s (shows n) = (elem n.id (keys s.shown) ≡ false) × (elem n.id (ids s.queue) ≡ false)
IsOrderly s (closes id) = elem id s.closing ≡ false
IsOrderly s (auto_fires i) =
    (id : ℕ) (rest : List ℕ) → pick i s.auto ≡ some (id, rest) → elem id s.closing ≡ false
IsOrderly s (closing_fires i) = Unit

abbrev pub Apart : List ℕ → List Notice → Type 0
Apart ks = All (λ n. elem n.id ks ≡ false)

abbrev pub AllShown : List ℕ → List ℕ → Type 0
AllShown ks = All (λ id. elem id ks ≡ true)

-- There is room on the page for the notice `n`.
pub record HasRoom (n : Notice) (s : NotificationSystem) : Type 0 where
  pub shown_once : distinct (keys s.shown) ≡ true
  pub agree : s.container ≡ keys s.shown
  pub counted : s.active ≡ pos (length (keys s.shown))
  pub room : length (keys s.shown) < max_visible
  pub waits : (s.queue ≡ []) ⊎ (length (keys s.shown) + 1 ≡ max_visible)
  pub queued_once : distinct (ids s.queue) ≡ true
  pub apart : Apart (keys s.shown) s.queue
  pub closing_once : distinct s.closing ≡ true
  pub closing_shown : AllShown (keys s.shown) s.closing
  pub new_here : elem n.id (keys s.shown) ≡ false
  pub new_queued : elem n.id (ids s.queue) ≡ false

pub Apart-snoc :
    (id : ℕ) (ks : List ℕ) (q : List Notice)
    → Apart ks q
    → elem id (ids q) ≡ false
    → Apart (ks ++ id ∷ []) q
unfolding elem
Apart-snoc id ks [] h f = tt
Apart-snoc id ks (n ∷ q) h f =
    (ground (arith, elem-snoc n.id id ks, h.0), Apart-snoc id ks q h.1 (ground arith))

pub AllShown-snoc : (id : ℕ) (ks cs : List ℕ) → AllShown ks cs → AllShown (ks ++ id ∷ []) cs
AllShown-snoc id ks [] h = tt
AllShown-snoc id ks (c ∷ cs) h =
    (ground (arith, elem-snoc c id ks, h.0), AllShown-snoc id ks cs h.1)

pub length-keys-snoc : (id : ℕ) (ks : List ℕ) → length (ks ++ id ∷ []) ≡ length ks + 1
length-keys-snoc id ks = omega (arith, length-append ks (id ∷ []))

pub display-IsValid :
    (n : Notice) (s : NotificationSystem) → HasRoom n s → IsValid (display_notification n s)
unfolding display_notification
display-IsValid n s r =
    let grown = keys-insert_new n.id n s.shown r.new_here in
    let more = length-keys-snoc n.id (keys s.shown) in
    record {
      shown_once = rw grown (ground (arith, distinct-snoc n.id (keys s.shown)));
      agree = rw (grown, r.agree) refl;
      counted = rw (grown, more, r.counted) (ground arith);
      bounded = rw (grown, more) (omega arith);
      waits = rw (grown, more) r.waits;
      queued_once = r.queued_once;
      apart = rw grown (Apart-snoc n.id (keys s.shown) s.queue r.apart r.new_queued);
      closing_once = r.closing_once;
      closing_shown = rw grown (AllShown-snoc n.id (keys s.shown) s.closing r.closing_shown);
    }
