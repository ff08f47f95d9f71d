-- ===== src/Connection/Tests.antt =====
-- The connection tests at concrete calls.
use centos_info_collect.Base.{
  ◌≡◌, ◌↔◌, refl, Text, none, List, [], ◌∷◌, codes, trim, map, length-map, list_eq, ℕ_eq, distinct,
}
use centos_info_collect.Base.Number.{parse_int}
use centos_info_collect.Form.Rules.{is_ip_address}
use centos_info_collect.Connection.{
  ServerData, Event, tests, ends, cancels, Outcome, rejected, new, run, generate_test_id,
  validate_server_data,
}
use centos_info_collect.Connection.Validation.{IsReachable, validate_server_data_iff}
use centos_info_collect.Connection.Flight.{
  IsTracked, test_ids, run-new-IsTracked, run-cancel_restart,
}
use centos_info_collect.Connection.Batches.{
  Covers, concurrency, test_multiple_connections, test_multiple_connections-Covers,
}

abbrev server : Text → ServerData
server port = record {
  linux_ip = codes "10.0.0.7";
  linux_port = port;
  linux_user = codes "root";
  linux_passwd = codes "secret";
}

validate_server_data_iff_example :
    (validate_server_data (server (codes "22")) ≡ none) ↔ IsReachable (server (codes "22"))
validate_server_data_iff_example = validate_server_data_iff (server (codes "22"))

passes : validate_server_data (server (codes "22")) ≡ none
unfolding validate_server_data trim is_ip_address parse_int
passes = refl

abbrev calls : List Event
calls = tests (server (codes "22")) ∷ tests (server (codes "2222")) ∷ ends 0 ∷ []

run-new-IsTracked_example : IsTracked (run new calls)
run-new-IsTracked_example = run-new-IsTracked calls tt

run-cancel_restart_example :
    (test_ids
        (run new (
          tests (server (codes "22"))
          ∷ cancels
          ∷ tests (server (codes "22"))
          ∷ ends 0
          ∷ [])).in_flight
      ≡ generate_test_id (server (codes "22")) ∷ [])
    × ((run new (
          tests (server (codes "22"))
          ∷ cancels
          ∷ tests (server (codes "22"))
          ∷ ends 0
          ∷ [])).active_tests
        ≡ [])
unfolding distinct
run-cancel_restart_example =
    run-cancel_restart (server (codes "22")) new (record { agree = refl; once = refl }) refl passes

abbrev settle : List ServerData → List Outcome
settle = map (λ d. rejected (codes "HTTP错误: 500"))

test_multiple_connections-Covers_example :
    Covers (concurrency 2) (server [] ∷ server (codes "22") ∷ server (codes "23") ∷ []) (
      test_multiple_connections settle 2
        (server [] ∷ server (codes "22") ∷ server (codes "23") ∷ []))
test_multiple_connections-Covers_example =
    test_multiple_connections-Covers settle (length-map (λ d. rejected (codes "HTTP错误: 500"))) 2
      (server [] ∷ server (codes "22") ∷ server (codes "23") ∷ [])
