-- ===== src/Timing/Tests.antt =====
-- The delayed functions at concrete calls.
use centos_info_collect.Base.{ℕ, ◌≡◌, false, List, [], ◌∷◌}
use centos_info_collect.Timing.Debounce
use centos_info_collect.Timing.Throttle

abbrev presses : List (Debounce.Event ℕ)
presses = Debounce.call 1 ∷ Debounce.call 2 ∷ Debounce.fires ∷ Debounce.call 3 ∷ Debounce.fires ∷ []

run-settled_calls_example :
    (Debounce.run false Debounce.new presses).called ≡ Debounce.settled presses
run-settled_calls_example = Debounce.run-settled_calls presses

settled_presses : (Debounce.run false Debounce.new presses).called ≡ 2 ∷ 3 ∷ []
settled_presses = Debounce.run-settled_calls presses

abbrev scrolls : List (Throttle.Event ℕ)
scrolls = Throttle.call 1 ∷ Throttle.call 2 ∷ Throttle.fires ∷ Throttle.call 3 ∷ []

run-leading_example : (Throttle.run Throttle.new scrolls).called ≡ Throttle.leading false scrolls
run-leading_example = Throttle.run-leading scrolls

leading_scrolls : (Throttle.run Throttle.new scrolls).called ≡ 1 ∷ 3 ∷ []
leading_scrolls = Throttle.run-leading scrolls
