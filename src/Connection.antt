-- ===== src/Connection.antt =====
-- The class `ConnectionTester` of static/js/connection-test.js. A promise is a number; the events of
-- a tester are calls and the ends of its requests, in any order.
pub mod Validation
pub mod Flight
pub mod Batches
mod Tests
use centos_info_collect.Base.{
  ℕ, ◌+◌, Bool, true, false, not, ◌&&◌, ◌||◌, Option, none, some, List, [], ◌∷◌, ◌++◌, Text, codes,
  trim, null, includes, get, has, insert, erase, remove, pick, ◌==◌, ℕ_eq, list_eq, leb,
  if◌then◌else◌,
}
use centos_info_collect.Base.Int.{ℤ, pos, negsuc, leb_ℤ, ltb_ℤ}
use centos_info_collect.Base.Number.{parse_int}
use centos_info_collect.Form.Rules.{is_ip_address, ip_message, port_message}

-- A missing field is the empty text: the source tests both by `!`.
pub record ServerData : Type 0 where
  pub linux_ip : Text
  pub linux_port : Text
  pub linux_user : Text
  pub linux_passwd : Text

abbrev pub is_blank : Text → Bool
is_blank s = null s || null (trim s)

-- `a || b` on texts
abbrev pub or_else : Text → Text → Text
or_else a b = if null a then b else a

-- `parseInt(port) || 22`
abbrev pub port_or_default : Option ℤ → ℤ
port_or_default none = pos 22
port_or_default (some (negsuc n)) = negsuc n
port_or_default (some (pos n)) = if n == 0 then pos 22 else pos n

-- `none` is `isValid: true`.
unfoldable pub validate_server_data : ServerData → Option Text
validate_server_data d =
    if is_blank d.linux_ip
    then some (codes "IP地址不能为空")
    else if is_blank d.linux_user
    then some (codes "用户名不能为空")
    else if is_blank d.linux_passwd
    then some (codes "密码不能为空")
    else if not (is_ip_address (trim d.linux_ip))
    then some ip_message
    else (let port = port_or_default (parse_int d.linux_port) in
        if ltb_ℤ port (pos 1) || ltb_ℤ (pos 65535) port then some port_message else none)

unfoldable pub generate_test_id : ServerData → Text
generate_test_id d = d.linux_ip ++ b':' ∷ (or_else d.linux_port (codes "22") ++ b':' ∷ d.linux_user)

-- The form that `performTest` sends; the token is left out where there is none.
unfoldable pub request_form : ServerData → Option Text → List (Text × Text)
request_form d token =
    (codes "linux_ip", d.linux_ip)
    ∷ (codes "linux_port", or_else d.linux_port (codes "22"))
    ∷ (codes "linux_user", d.linux_user)
    ∷ (codes "linux_passwd", d.linux_passwd)
    ∷ elim token [
      | none ↦ []
      | some value ↦ if null value then [] else (codes "csrfmiddlewaretoken", value) ∷ []
    ]

-- What comes back: no response, or a status with its `ok` and the body.
pub data Response : Type 0 where
  failed : Text → Response
  answered : Bool → Text → Text → Response

pub record TestResult : Type 0 where
  pub success : Bool
  pub message : Text
  pub server_data : ServerData

pub data Outcome : Type 0 where
  resolved : TestResult → Outcome
  rejected : Text → Outcome

-- the rest of `performTest`, once the request has ended; a status is its decimal text
unfoldable pub conclude : ServerData → Response → Outcome
conclude d (failed reason) = rejected reason
conclude d (answered ok status body) =
    if ok
    then resolved (record {
      success = includes (codes "成功") body || includes (codes "连接正常") body;
      message = body;
      server_data = d;
    })
    else rejected (codes "HTTP错误: " ++ status)

pub record Request : Type 0 where
  pub promise : ℕ
  pub test_id : Text
  pub server_data : ServerData

-- `active_tests` is the map of the source, `in_flight` the requests that have not ended.
pub record ConnectionTester : Type 0 where
  pub active_tests : List (Text × ℕ)
  pub in_flight : List Request
  pub next_promise : ℕ

abbrev pub new : ConnectionTester
new = record { active_tests = []; in_flight = []; next_promise = 0 }

-- What a caller of `testConnection` gets at once.
pub data Reply : Type 0 where
  joined : ℕ → Reply
  refused : Text → Reply
  started : ℕ → Reply

abbrev request_of : ConnectionTester → ServerData → Request
request_of t d = record { promise = t.next_promise; test_id = generate_test_id d; server_data = d }

-- `testConnection` up to its `await`
unfoldable pub test_connection : ServerData → ConnectionTester → ConnectionTester × Reply
test_connection d t = elim (get (generate_test_id d) t.active_tests) [
  | some promise ↦ (t, joined promise)
  | none ↦ elim (validate_server_data d) [
    | some message ↦ (t, refused message)
    | none ↦ (
      record {
        active_tests = insert (generate_test_id d) t.next_promise t.active_tests;
        in_flight = t.in_flight ++ request_of t d ∷ [];
        next_promise = t.next_promise + 1;
      },
      started t.next_promise,
    )
  ]
]

-- the `finally` block, when the request at the given place among those in flight has ended
unfoldable pub finish_test : ℕ → ConnectionTester → ConnectionTester
finish_test i t = elim (pick i t.in_flight) [
  | none ↦ t
  | some (r, rest) ↦ record t { active_tests = erase r.test_id t.active_tests; in_flight = rest }
]

unfoldable pub cancel_all_tests : ConnectionTester → ConnectionTester
cancel_all_tests t = record t { active_tests = [] }

pub data Event : Type 0 where
  tests : ServerData → Event
  ends : ℕ → Event
  cancels : Event

unfoldable pub step : ConnectionTester → Event → ConnectionTester
unfolding test_connection finish_test cancel_all_tests
step t (tests d) = (test_connection d t).0
step t (ends i) = finish_test i t
step t cancels = cancel_all_tests t

unfoldable pub run : ConnectionTester → List Event → ConnectionTester
unfolding step
run t [] = t
run t (e ∷ es) = run (step t e) es
