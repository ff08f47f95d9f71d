-- ===== src/Connection/Flight.antt =====
-- Which requests are in flight: the map `activeTests` against them.
use centos_info_collect.Base.{
  inl, inr, ℕ, zero, suc, ◌≡◌, refl, ap, true, false, none, some, List, [], ◌∷◌, ◌++◌, Text, map,
  get, insert, erase, pick, elem, distinct, keys, arith, Option-cases, has-get, has-keys,
  get-insert, distinct-snoc, distinct-pick, elem-pick, list_eq, ℕ_eq, list_beq_iff, beq_self,
}
use centos_info_collect.Connection.{
  ServerData, Request, ConnectionTester, Event, tests, ends, cancels, joined, request_of,
  generate_test_id, validate_server_data, test_connection, finish_test, step, run, new,
}

abbrev pub test_ids : List Request → List Text
test_ids = map (λ r. r.test_id)

abbrev pub entries : List Request → List (Text × ℕ)
entries = map (λ r. (r.test_id, r.promise))

-- The map has one entry for each request in flight, with the promise of its call, and no two
-- requests in flight are for one test.
pub record IsTracked (t : ConnectionTester) : Type 0 where
  pub agree : t.active_tests ≡ entries t.in_flight
  pub once : distinct (test_ids t.in_flight) ≡ true

keys-entries : (rs : List Request) → keys (entries rs) ≡ test_ids rs
keys-entries [] = refl
keys-entries (r ∷ rs) = ap (λ l. r.test_id ∷ l) (keys-entries rs)

insert-entries :
    (r : Request) (rs : List Request)
    → elem r.test_id (test_ids rs) ≡ false
    → insert r.test_id r.promise (entries rs) ≡ entries (rs ++ r ∷ [])
unfolding insert elem
insert-entries r [] h = refl
insert-entries r (q ∷ rs) h = ground (arith, insert-entries r rs)

test_ids-snoc :
    (r : Request) (rs : List Request) → test_ids (rs ++ r ∷ []) ≡ test_ids rs ++ r.test_id ∷ []
test_ids-snoc r [] = refl
test_ids-snoc r (q ∷ rs) = ap (λ l. q.test_id ∷ l) (test_ids-snoc r rs)

erase-entries_absent :
    (id : Text) (rs : List Request)
    → elem id (test_ids rs) ≡ false
    → erase id (entries rs) ≡ entries rs
unfolding erase elem
erase-entries_absent id [] h = refl
erase-entries_absent id (q ∷ rs) h = ground (arith, erase-entries_absent id rs)

pick-test_ids :
    (i : ℕ) (rs : List Request) {r : Request} {rest : List Request}
    → pick i rs ≡ some (r, rest)
    → pick i (test_ids rs) ≡ some (r.test_id, test_ids rest)
pick-test_ids i [] e = cc
pick-test_ids zero (q ∷ rs) e = ground arith
pick-test_ids (suc i) (q ∷ rs) e = elim (Option-cases (pick i rs)) [
  | inl gone ↦ cc (rw gone at e)
  | inr ((p, ps), found) ↦ ground (arith, pick-test_ids i rs found, rw found at e)
]

erase-entries :
    (i : ℕ) (rs : List Request) {r : Request} {rest : List Request}
    → pick i rs ≡ some (r, rest)
    → distinct (test_ids rs) ≡ true
    → erase r.test_id (entries rs) ≡ entries rest
unfolding erase distinct
erase-entries i [] e d = cc
erase-entries zero (q ∷ rs) {r} e d =
    ground (arith, erase-entries_absent q.test_id rs, list_beq_iff q.test_id r.test_id)
erase-entries (suc i) (q ∷ rs) {r} e d = elim (Option-cases (pick i rs)) [
  | inl gone ↦ cc (rw gone at e)
  | inr ((p, ps), found) ↦ ground (
    arith,
    rw found at e,
    erase-entries i rs found,
    list_beq_iff q.test_id p.test_id,
    list_beq_iff p.test_id q.test_id,
    elem-pick i (test_ids rs) q.test_id (pick-test_ids i rs found),
  )
]

no-entry :
    (t : ConnectionTester) (id : Text)
    → IsTracked t
    → get id t.active_tests ≡ none
    → elem id (test_ids t.in_flight) ≡ false
no-entry t id v e = rw (← keys-entries, ← v.agree, ← has-keys) ((has-get id t.active_tests).1 e)

start-IsTracked :
    (d : ServerData) (t : ConnectionTester)
    → IsTracked t
    → get (generate_test_id d) t.active_tests ≡ none
    → validate_server_data d ≡ none
    → IsTracked (test_connection d t).0
unfolding test_connection
start-IsTracked d t v e h =
    let fresh = no-entry t (generate_test_id d) v e in
    rw (e, h, test_connection)
      (record {
        agree = rw v.agree (insert-entries (request_of t d) t.in_flight fresh);
        once = rw test_ids-snoc (
            ground
              (arith, fresh, v.once, distinct-snoc (generate_test_id d) (test_ids t.in_flight)));
      })

tests-IsTracked :
    (d : ServerData) (t : ConnectionTester) → IsTracked t → IsTracked (test_connection d t).0
unfolding test_connection
tests-IsTracked d t v = elim (Option-cases (get (generate_test_id d) t.active_tests)) [
  | inr (p, e) ↦ rw (e, test_connection) v
  | inl e ↦ elim (Option-cases (validate_server_data d)) [
    | inr (m, h) ↦ rw (e, h, test_connection) v
    | inl h ↦ start-IsTracked d t v e h
  ]
]

ends-IsTracked : (i : ℕ) (t : ConnectionTester) → IsTracked t → IsTracked (finish_test i t)
unfolding finish_test
ends-IsTracked i t v = elim (Option-cases (pick i t.in_flight)) [
  | inl e ↦ rw (e, finish_test) v
  | inr ((r, rest), e) ↦
      rw (e, finish_test)
        (record {
          agree = rw v.agree (erase-entries i t.in_flight e v.once);
          once = (distinct-pick i (test_ids t.in_flight) (pick-test_ids i t.in_flight e) v.once).0;
        })
]

abbrev pub NoCancel : List Event → Type 0
NoCancel [] = Unit
NoCancel (cancels ∷ es) = ⊥
NoCancel (e ∷ es) = NoCancel es

run-IsTracked :
    (t : ConnectionTester) (es : List Event) → IsTracked t → NoCancel es → IsTracked (run t es)
unfolding run
run-IsTracked t [] v n = v
run-IsTracked t (tests d ∷ es) v n = run-IsTracked (step t (tests d)) es (tests-IsTracked d t v) n
run-IsTracked t (ends i ∷ es) v n = run-IsTracked (step t (ends i)) es (ends-IsTracked i t v) n
run-IsTracked t (cancels ∷ es) v n = absurd n

-- As long as `cancelAllTests` is not called, whatever is tested and in whatever order the requests
-- end, no two requests in flight are for one test, and the map holds exactly those in flight.
pub run-new-IsTracked : (es : List Event) → NoCancel es → IsTracked (run new es)
unfolding distinct
run-new-IsTracked es n = run-IsTracked new es (record { agree = refl; once = refl }) n

same_id :
    (d : ServerData) (passwd : Text)
    → generate_test_id (record d { linux_passwd = passwd }) ≡ generate_test_id d
unfolding generate_test_id
same_id d passwd = refl

joins :
    (d : ServerData) (t : ConnectionTester) {p : ℕ}
    → get (generate_test_id d) t.active_tests ≡ some p
    → test_connection d t ≡ (t, joined p)
unfolding test_connection
joins d t e = rw (e, test_connection) refl

knows :
    (d : ServerData) (t : ConnectionTester)
    → get (generate_test_id d) t.active_tests ≡ none
    → validate_server_data d ≡ none
    → get (generate_test_id d) (test_connection d t).0.active_tests ≡ some t.next_promise
unfolding test_connection
knows d t e h = rw (e, h, test_connection) (rw (get-insert, beq_self) refl)

-- A second test of the same server, user and port, while the first is in flight, is answered by the
-- promise of the first and sends nothing, whatever its password.
pub test_connection-twice :
    (d : ServerData) (passwd : Text) (t : ConnectionTester)
    → get (generate_test_id d) t.active_tests ≡ none
    → validate_server_data d ≡ none
    → test_connection (record d { linux_passwd = passwd }) (test_connection d t).0
      ≡ ((test_connection d t).0, joined t.next_promise)
test_connection-twice d passwd t e h =
    joins (record d { linux_passwd = passwd }) (test_connection d t).0 (rw same_id (knows d t e h))

-- After a test, `cancelAllTests`, the same test again and the end of the first request, the second
-- request is still in flight and the map does not know it.
pub run-cancel_restart :
    (d : ServerData) (t : ConnectionTester)
    → IsTracked t
    → t.in_flight ≡ []
    → validate_server_data d ≡ none
    → let u = run t (tests d ∷ cancels ∷ tests d ∷ ends 0 ∷ []) in
      (test_ids u.in_flight ≡ generate_test_id d ∷ []) × (u.active_tests ≡ [])
unfolding run get insert erase
run-cancel_restart d t v e h =
    let empty : t.active_tests ≡ [] = rw (v.agree, e) refl in
    ground (arith, empty, e, h, list_beq_iff (generate_test_id d) (generate_test_id d))
