-- ===== src/Timing/Throttle.antt =====
-- The function `throttle` of static/js/custom.js. The one call of the browser it makes is
-- `setTimeout`, whose timer clears `inThrottle`.
use centos_info_collect.Base.{
  ℕ, zero, suc, ◌≡◌, refl, Bool, true, false, not, List, [], ◌∷◌, ◌++◌, if◌then◌else◌, arith,
  append_assoc, append-nil,
}

-- `pending` counts the timers that have not fired.
pub record Throttled (A : Type 0) : Type 0 where
  pub in_throttle : Bool
  pub pending : ℕ
  pub called : List A

-- The arguments of a call, or the firing of a timer.
pub data Event (A : Type 0) : Type 0 where
  call : A → Event A
  fires : Event A

module _ {A : Type 0} where
  abbrev pub new : Throttled A
  new = record { in_throttle = false; pending = 0; called = [] }

  unfoldable pub step : Throttled A → Event A → Throttled A
  step t (call args) =
      if not t.in_throttle
      then record { in_throttle = true; pending = suc t.pending; called = t.called ++ args ∷ [] }
      else t
  step t fires = elim t.pending [ zero ↦ t | suc n ↦ record t { in_throttle = false; pending = n } ]

  unfoldable pub run : Throttled A → List (Event A) → Throttled A
  unfolding step
  run t [] = t
  run t (e ∷ es) = run (step t e) es

  -- A timer is pending exactly while calls are dropped, and it is one.
  abbrev IsValid : Throttled A → Type 0
  IsValid t = t.pending ≡ (if t.in_throttle then 1 else 0)

  step-IsValid : (t : Throttled A) (e : Event A) → IsValid t → IsValid (step t e)
  unfolding step
  step-IsValid t (call args) v = ground arith
  step-IsValid t fires v = ground arith

  -- The first call, and after each firing of the timer the next one; the others are dropped.
  abbrev pub leading : Bool → List (Event A) → List A
  leading dropping [] = []
  leading true (call args ∷ es) = leading true es
  leading false (call args ∷ es) = args ∷ leading true es
  leading dropping (fires ∷ es) = leading false es

  run-leading_from :
      (t : Throttled A) (es : List (Event A))
      → IsValid t
      → (run t es).called ≡ t.called ++ leading t.in_throttle es
  unfolding run
  run-leading_from t [] v = ground (arith, append-nil t.called)
  run-leading_from t (call args ∷ es) v = ground (
    arith,
    run-leading_from (step t (call args)) es,
    step-IsValid t (call args),
    append_assoc t.called (args ∷ []) (leading true es),
  )
  run-leading_from t (fires ∷ es) v =
      ground (arith, run-leading_from (step t fires) es, step-IsValid t fires)

  -- The function is called at once for the first call, and after each firing of the timer for the
  -- next call; the calls between are dropped.
  pub run-leading : (es : List (Event A)) → (run new es).called ≡ leading false es
  run-leading es = run-leading_from new es refl
