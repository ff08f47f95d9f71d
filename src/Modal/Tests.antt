-- ===== src/Modal/Tests.antt =====
-- Dialogs at concrete events.
use centos_info_collect.Base.{[], ◌∷◌, List}
use centos_info_collect.Modal.{Event, clicks, dismisses, hidden}

-- The user dismisses the dialog and clicks the button while it fades.
abbrev dismissed_then_clicked : List Event
dismissed_then_clicked = dismisses ∷ clicks ∷ hidden ∷ []
