-- ===== src/Aiops/Loads.antt =====
-- The panels of static/js/aiops-vue.js that a button loads, with a method for each: the loading
-- itself, which has the same shape in all of them, and what the methods differ in.
use centos_info_collect.Base.{
  ℕ, Bool, true, false, not, ◌&&◌, ◌||◌, Option, none, some, List, [], ◌∷◌, ◌++◌, Text, codes, null,
  pick, if◌then◌else◌,
}
use centos_info_collect.Metric.Values.{Value, null_value, property, truthy, array_or_empty}
use centos_info_collect.Aiops.Replies.{Reply, Result, failed, loaded, read_reply}
pub mod Alone
pub mod Methods

-- A method: when it asks the server for a choice of the user, what it does to the result before
-- that, what it reads from the body, and the message it shows where the error has none.
pub record Loader (C : Type 0) (A : Type 0) : Type 0 where
  pub ready : C → Bool
  pub reset : A → A
  pub read : Value → A → A
  pub fallback : Text

-- `in_flight` has a request for each call that has not ended, by the choice it was made for.
pub record Panel (C : Type 0) (A : Type 0) : Type 0 where
  pub choice : C
  pub loading : Bool
  pub error : Text
  pub result : A
  pub in_flight : List C

-- `clicks` is the button, which the template disables while the panel loads.
pub data Event (C : Type 0) : Type 0 where
  clicks : Event C
  chooses : C → Event C
  replies : ℕ → Reply → Event C

module _ {C : Type 0} {A : Type 0} where
  abbrev pub new : C → A → Panel C A
  new choice result = record {
    choice = choice;
    loading = false;
    error = [];
    result = result;
    in_flight = [];
  }

  -- a call up to its request
  unfoldable pub load : Loader C A → Panel C A → Panel C A
  load l p = if not (l.ready p.choice) then p else record p {
    loading = true;
    error = [];
    result = l.reset p.result;
    in_flight = p.in_flight ++ p.choice ∷ [];
  }

  -- the rest of the `try`, the `catch` and the `finally`
  abbrev pub settle : Loader C A → Result → Panel C A → Panel C A
  settle l (failed m) p = record p { error = m; loading = false }
  settle l (loaded b) p = record p { result = l.read b p.result; loading = false }

  unfoldable pub reply : (Value → Text) → Loader C A → ℕ → Reply → Panel C A → Panel C A
  reply show l n r p = elim (pick n p.in_flight) [
    | none ↦ p
    | some (asked, rest) ↦ settle l (read_reply show l.fallback r) (record p { in_flight = rest })
  ]

  unfoldable pub step : (Value → Text) → Loader C A → Panel C A → Event C → Panel C A
  unfolding load reply
  step show l p clicks = if p.loading then p else load l p
  step show l p (chooses c) = record p { choice = c }
  step show l p (replies n r) = reply show l n r p

  unfoldable pub run : (Value → Text) → Loader C A → Panel C A → List (Event C) → Panel C A
  unfolding step
  run show l p [] = p
  run show l p (e ∷ es) = run show l (step show l p e) es
