-- ===== src/Modal.antt =====
-- The class `ModernModal` of static/js/custom.js. Bootstrap shows and hides the dialog: it is taken
-- to fire `hidden.bs.modal` some time after it has begun to hide it, and not otherwise.
use centos_info_collect.Base.{
  ℕ, zero, suc, Bool, true, false, not, ◌&&◌, ◌||◌, Option, none, some, List, [], ◌∷◌, Text, codes,
  ◌==◌, ℕ_eq, list_eq, if◌then◌else◌,
}
pub mod Answer
pub mod Tests

pub record Options : Type 0 where
  pub title : Text
  pub content : Text
  pub kind : Text
  pub show_close : Bool
  pub size : Text

abbrev pub default_options : Options
default_options = record {
  title = codes "提示";
  content = [];
  kind = codes "info";
  show_close = true;
  size = codes "md";
}

unfoldable pub get_icon : Text → Text
get_icon kind =
    if kind == codes "success"
    then codes "check-circle"
    else if kind == codes "warning"
    then codes "exclamation-triangle"
    else if kind == codes "error"
    then codes "exclamation-circle"
    else if kind == codes "question"
    then codes "question-circle"
    else codes "info-circle"

-- `element` says that there is one, `hiding` that Bootstrap is hiding it, and `confirming` that its
-- two listeners of `ModernModal.confirm` are there. `listeners` counts the listeners that `show` has
-- added, `closed` the calls of `onClose`, and `answer` is what the promise was first resolved to.
pub record Modal : Type 0 where
  pub element : Bool
  pub is_open : Bool
  pub hiding : Bool
  pub confirming : Bool
  pub listeners : ℕ
  pub closed : ℕ
  pub answer : Option Bool

abbrev pub new : Modal
new = record {
  element = false;
  is_open = false;
  hiding = false;
  confirming = false;
  listeners = 0;
  closed = 0;
  answer = none;
}

abbrev pub create : Modal → Modal
create m = record m { element = true; listeners = 0; confirming = false }

unfoldable pub show : Modal → Modal
show m =
    let made = if m.element then m else create m in
    record made { is_open = true; listeners = suc made.listeners }

unfoldable pub hide : Modal → Modal
hide m = if m.element && m.is_open then record m { hiding = true } else m

abbrev pub destroy : Modal → Modal
destroy m = if m.element then record m { element = false } else m

-- A promise keeps what it was first resolved to.
abbrev pub resolve : Bool → Modal → Modal
resolve b m = elim m.answer [ none ↦ record m { answer = some b } | some a ↦ m ]

-- a listener that `show` has added
abbrev pub on_hidden : Modal → Modal
on_hidden m = destroy (record m { is_open = false; closed = suc m.closed })

abbrev pub repeat_hidden : ℕ → Modal → Modal
repeat_hidden zero m = m
repeat_hidden (suc n) m = repeat_hidden n (on_hidden m)

-- `ModernModal.confirm`: the listeners of the button and of the end are added before those of `show`.
unfoldable pub confirm : Modal
unfolding show
confirm = show (record (create new) { confirming = true })

-- `ModernModal.alert`
unfoldable pub alert : Modal
unfolding show
alert = show new

-- What happens to a dialog: a click on the button that confirms, a dismissal by the other buttons,
-- the backdrop or the keyboard, and the end of the hiding.
pub data Event : Type 0 where
  clicks : Event
  dismisses : Event
  hidden : Event

unfoldable pub step : Modal → Event → Modal
unfolding hide
step m clicks = if m.element && m.confirming then hide (resolve true m) else m
step m dismisses = if m.element then record m { hiding = true } else m
step m hidden =
    if m.element && m.hiding
    then (let answered = if m.confirming then resolve false m else m in
        record (repeat_hidden m.listeners answered) { hiding = false })
    else m

unfoldable pub run : Modal → List Event → Modal
unfolding step
run m [] = m
run m (e ∷ es) = run (step m e) es
