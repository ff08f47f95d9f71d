-- ===== src/Metric/Names/Tests.antt =====
-- The search for names at concrete events.
use centos_info_collect.Base.{ℕ, Bool, false, List, [], ◌∷◌, codes}
use centos_info_collect.Metric.Values.{
  Number, nan, Value, string, number, natural, array, object, no_values, values, no_entries,
  entries,
}
use centos_info_collect.Metric.Fetch.{body}
use centos_info_collect.Metric.Names.{new, run, types, fires, changes, replies, Event}
use centos_info_collect.Metric.Names.Searching.{IsSearching}
use centos_info_collect.Metric.Names.Awaited.{run-new-IsSearching}

abbrev fraction_exceeds : Bool → ℕ → ℕ → Bool
fraction_exceeds sign bits n = false

abbrev convert : Value → Number
convert v = nan

abbrev found : Value
found = object (
    entries (codes "prometheus_id") (number (natural 3))
      (entries (codes "metrics") (array (values (string (codes "up")) no_values)) no_entries))

-- The user types on while the first search is in flight, and its reply comes first.
abbrev typing : List Event
typing =
    types (codes "u")
    ∷ fires
    ∷ types (codes "up")
    ∷ fires
    ∷ replies 0 (body found)
    ∷ changes (codes "3")
    ∷ replies 0 (body found)
    ∷ []

run-new-IsSearching_example :
    IsSearching (run fraction_exceeds convert (new (codes "3" ∷ []) (codes "3")) typing)
run-new-IsSearching_example =
    run-new-IsSearching fraction_exceeds convert (codes "3" ∷ []) (codes "3") typing
