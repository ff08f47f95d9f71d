-- ===== src/Modal/Answer.antt =====
-- What the promise of `ModernModal.confirm` comes to.
use centos_info_collect.Base.{Bool, true, false, Option, none, some, List, [], ◌∷◌, if◌then◌else◌}
use centos_info_collect.Modal.{Modal, Event, clicks, dismisses, hidden}

-- The answer by the history alone, for a dialog that is open; `hiding` says that it is being hidden.
abbrev pub answer_of : Bool → List Event → Option Bool
answer_of hiding [] = none
answer_of hiding (clicks ∷ es) = some true
answer_of hiding (dismisses ∷ es) = answer_of true es
answer_of hiding (hidden ∷ es) =
    let rest = answer_of hiding es in if hiding then some false else rest

-- a dialog of `ModernModal.confirm` that is open
abbrev pub open_dialog : Bool → Option Bool → Modal
open_dialog hiding answer = record {
  element = true;
  is_open = true;
  hiding = hiding;
  confirming = true;
  listeners = 1;
  closed = 0;
  answer = answer;
}

-- a dialog that was hidden
abbrev pub closed_dialog : Bool → Modal
closed_dialog answer = record {
  element = false;
  is_open = false;
  hiding = false;
  confirming = true;
  listeners = 1;
  closed = 1;
  answer = some answer;
}
