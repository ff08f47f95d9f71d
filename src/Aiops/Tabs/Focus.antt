-- ===== src/Aiops/Tabs/Focus.antt =====
-- What the tabs of static/js/aiops-vue.js come to over a history of clicks and keys.
use centos_info_collect.Base.{
  ℕ, zero, suc, ◌≡◌, refl, Bool, true, Option, none, some, List, [], ◌∷◌, Text, codes, any, length,
  get_elem?, beq_self, ◌==◌, ℕ_eq, list_eq, if-elim, arith,
}
use centos_info_collect.Tablist.{Key, target}
use centos_info_collect.Aiops.Tabs.{
  Tab, Endpoints, Page, tabs, select_found, select_at, on_tab_keydown, click_found, focus_at, place,
  hash_tab, open_at, mounted, Event, clicks, presses, enters, step, run,
}

-- The key is that of one of these tabs.
abbrev pub is_key : Text → List Tab → Bool
is_key key ts = any (λ (t : Tab). t.key == key) ts

is_key-get : (ts : List Tab) (j : ℕ) (t : Tab) → get_elem? ts j ≡ some t → is_key t.key ts ≡ true
is_key-get [] j t h = cc
is_key-get (x ∷ ts) zero t h = ground (arith, beq_self t.key)
is_key-get (x ∷ ts) (suc j) t h = ground (arith, is_key-get ts j t h)

-- The tab that is active is one of these.
abbrev pub IsOpen : List Tab → Page → Type 0
IsOpen ts p = is_key p.active ts ≡ true

select_found-IsOpen :
    (ts : List Tab) (j : ℕ) (o : Option Tab) (p : Page)
    → get_elem? ts j ≡ o
    → IsOpen ts p
    → IsOpen ts (select_found o p)
select_found-IsOpen ts j none p g h = h
select_found-IsOpen ts j (some t) p g h = is_key-get ts j t g

select_at-IsOpen :
    (ts : List Tab) (o : Option ℕ) (p : Page) → IsOpen ts p → IsOpen ts (select_at ts o p)
select_at-IsOpen ts none p h = h
select_at-IsOpen ts (some j) p h = select_found-IsOpen ts j (get_elem? ts j) p refl h

open_at-IsOpen :
    (ts : List Tab) (o : Option Text) (p : Page) → IsOpen ts p → IsOpen ts (open_at ts o p)
open_at-IsOpen ts none p h = h
open_at-IsOpen ts (some k) p h = if-elim (IsOpen ts) (is_key k ts) (λ y. y) (λ n. h)

click_found-IsOpen :
    (ts : List Tab) (i : ℕ) (o : Option Tab) (p : Page)
    → get_elem? ts i ≡ o
    → IsOpen ts p
    → IsOpen ts (click_found i o p)
click_found-IsOpen ts i none p g h = h
click_found-IsOpen ts i (some t) p g h = is_key-get ts i t g

focus_at-IsOpen : (ts : List Tab) (o : Option ℕ) (p : Page) → IsOpen ts p → IsOpen ts (focus_at o p)
focus_at-IsOpen ts none p h = h
focus_at-IsOpen ts (some i) p h = h

step-IsOpen : (ts : List Tab) (p : Page) (ev : Event) → IsOpen ts p → IsOpen ts (step ts p ev)
unfolding step on_tab_keydown
step-IsOpen ts p (clicks i) h = click_found-IsOpen ts i (get_elem? ts i) p refl h
step-IsOpen ts p (presses k) h = select_at-IsOpen ts (target k p.focus (length ts)) p h
step-IsOpen ts p enters h = focus_at-IsOpen ts (place p.active ts) p h

run-IsOpen : (ts : List Tab) (p : Page) (es : List Event) → IsOpen ts p → IsOpen ts (run ts p es)
unfolding run
run-IsOpen ts p [] h = h
run-IsOpen ts p (ev ∷ es) h = run-IsOpen ts (step ts p ev) es (step-IsOpen ts p ev h)

-- Whatever endpoints the page's data names, whatever the fragment of the address is, and after
-- whatever clicks and keys, the active tab is one of those that the page has.
pub run-mounted-IsOpen :
    (e : Endpoints) (hash : Text) (es : List Event)
    → IsOpen (tabs e) (run (tabs e) (mounted (tabs e) hash) es)
unfolding mounted tabs
run-mounted-IsOpen e hash es =
    run-IsOpen (tabs e) (mounted (tabs e) hash) es (
      open_at-IsOpen (tabs e) (hash_tab hash) (record { active = codes "overview"; focus = 0 })
        refl)

-- a key that is pressed so many times
abbrev pub repeated : Key → ℕ → List Event
repeated k zero = []
repeated k (suc n) = presses k ∷ repeated k n
