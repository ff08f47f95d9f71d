-- ===== src/Timing/Debounce.antt =====
-- The function `debounce` of static/js/custom.js. The one call of the browser it makes is
-- `setTimeout`, whose handle is a number that is not 0.
use centos_info_collect.Base.{
  ◌≡◌, refl, sym, append-nil, Bool, true, false, not, ◌&&◌, Option-cases, inl, inr, ◌∙◌, Option,
  none, some, List, [], ◌∷◌, ◌++◌, if◌then◌else◌, arith, append_assoc, take,
}

-- `timeout` says whether the variable holds a handle, `pending` is the timer that has not fired,
-- with the arguments of its call, and `called` are the arguments `func` was called with so far.
pub record Debounced (A : Type 0) : Type 0 where
  pub timeout : Bool
  pub pending : Option A
  pub called : List A

-- The arguments of a call, or the firing of the timer.
pub data Event (A : Type 0) : Type 0 where
  call : A → Event A
  fires : Event A

module _ {A : Type 0} where
  abbrev pub new : Debounced A
  new = record { timeout = false; pending = none; called = [] }

  -- `later` clears its own timer, which has fired, and leaves the handle in `timeout`.
  unfoldable pub step : Bool → Debounced A → Event A → Debounced A
  step immediate d (call args) =
      let call_now = immediate && not d.timeout in
      record {
        timeout = true;
        pending = some args;
        called = if call_now then d.called ++ args ∷ [] else d.called;
      }
  step immediate d fires = elim d.pending [
    | none ↦ d
    | some args ↦ record d {
      pending = none;
      called = if not immediate then d.called ++ args ∷ [] else d.called;
    }
  ]

  unfoldable pub run : Bool → Debounced A → List (Event A) → Debounced A
  unfolding step
  run immediate d [] = d
  run immediate d (e ∷ es) = run immediate (step immediate d e) es

  -- The arguments of the calls.
  abbrev pub calls : List (Event A) → List A
  calls [] = []
  calls (call args ∷ es) = args ∷ calls es
  calls (fires ∷ es) = calls es

  run-called :
      (d : Debounced A) (es : List (Event A)) → d.timeout ≡ true → (run true d es).called ≡ d.called
  unfolding run
  run-called d [] t = refl
  run-called d (call args ∷ es) t = ground (arith, run-called (step true d (call args)) es)
  run-called d (fires ∷ es) t = ground (arith, run-called (step true d fires) es)

  -- With `immediate` the function is called for the first call of all, at once, and never again,
  -- however many quiet periods pass: no statement sets `timeout` back, so `callNow` is false from
  -- the second call on.
  pub run-immediate : (es : List (Event A)) → (run true new es).called ≡ take 1 (calls es)
  unfolding run
  run-immediate [] = refl
  run-immediate (call args ∷ es) = run-called (step true new (call args)) es refl
  run-immediate (fires ∷ es) = run-immediate es

  -- The calls that no other call follows before the timer fires.
  abbrev pub settled : List (Event A) → List A
  settled [] = []
  settled (fires ∷ es) = settled es
  settled (call args ∷ []) = []
  settled (call args ∷ fires ∷ es) = args ∷ settled es
  settled (call args ∷ call more ∷ es) = settled (call more ∷ es)

  -- The events that are left, with the call that is pending.
  abbrev ahead : Option A → List (Event A) → List (Event A)
  ahead none es = es
  ahead (some args) es = call args ∷ es

  ahead_call :
      (p : Option A) (args : A) (es : List (Event A))
      → settled (ahead p (call args ∷ es)) ≡ settled (call args ∷ es)
  ahead_call none args es = refl
  ahead_call (some before) args es = refl

  run-settled :
      (d : Debounced A) (es : List (Event A))
      → (run false d es).called ≡ d.called ++ settled (ahead d.pending es)
  unfolding run
  run-settled d [] = elim d.pending as (λ p. d.called ≡ d.called ++ settled (ahead p [])) [
    | none ↦ sym (append-nil d.called)
    | some args ↦ sym (append-nil d.called)
  ]
  run-settled d (call args ∷ es) =
      ground (arith, run-settled (step false d (call args)) es, ahead_call d.pending args es)
  run-settled d (fires ∷ es) = elim (Option-cases d.pending) [
    | inl e ↦ ground (arith, run-settled d es)
    | inr (args, e) ↦ rw e (
        run-settled (record d { pending = none; called = d.called ++ args ∷ [] }) es
        ∙ append_assoc d.called (args ∷ []) (settled es))
  ]

  -- Without `immediate` the function is called once for each call that no other follows before the
  -- timer fires, with the arguments of that call and in their order, and for no other.
  pub run-settled_calls : (es : List (Event A)) → (run false new es).called ≡ settled es
  run-settled_calls es = run-settled new es
