-- ===== src/Aiops/Runbook.antt =====
-- The recommendations of runbooks in static/js/aiops-vue.js: `loadRunbookRecommendations`,
-- `loadRunbookOutcome` and `initiateRunbookRecommendation`. The last two get an object of the list
-- and keep it while they await the server, so that the objects are told apart by a number that each
-- gets when its list is loaded.
use centos_info_collect.Base.{
  ℕ, zero, suc, Bool, true, false, not, ◌&&◌, ◌||◌, Option, none, some, List, [], ◌∷◌, ◌++◌, Text,
  codes, null, pick, insert, ◌==◌, ℕ_eq, list_eq, if◌then◌else◌,
}
use centos_info_collect.Metric.Values.{
  Value, null_value, object, Entries, no_entries, entries, pairs, property, truthy,
}
use centos_info_collect.Aiops.Replies.{Reply, Result, failed, loaded, read_reply}
use centos_info_collect.Aiops.Loads.Methods.{rows}
pub mod Initiating

-- A call that awaits a reply. `following` is the outcome that an initiation loads at its end.
pub data Task : Type 0 where
  listing : Task
  outcome : Task
  initiating : ℕ → Task
  following : Task

pub record Runbook : Type 0 where
  pub loading : Bool
  pub is_initiating : Bool
  pub error : Text
  pub results : List (ℕ × Value)
  pub next : ℕ
  pub outcome : Value
  pub outcome_loading : Bool
  pub in_flight : List Task

-- The endpoint and the template, empty where they are missing, and the text of an `Error`.
pub record Context : Type 0 where
  pub endpoint : Text
  pub template : Text
  pub show : Value → Text

abbrev pub new : Runbook
new = record {
  loading = false;
  is_initiating = false;
  error = [];
  results = [];
  next = 0;
  outcome = null_value;
  outcome_loading = false;
  in_flight = [];
}

-- the objects of a list, numbered from here
abbrev pub numbered : ℕ → List Value → List (ℕ × Value)
numbered n [] = []
numbered n (v ∷ vs) = (n, v) ∷ numbered (suc n) vs

abbrev pub number_after : ℕ → List Value → ℕ
number_after n [] = n
number_after n (v ∷ vs) = number_after (suc n) vs

abbrev pub entries_of : List (Text × Value) → Entries
entries_of [] = no_entries
entries_of ((k, v) ∷ es) = entries k v (entries_of es)

abbrev pub insert_all : List (Text × Value) → List (Text × Value) → List (Text × Value)
insert_all [] own = own
insert_all ((k, v) ∷ es) own = insert_all es (insert k v own)

-- `Object.assign(item, source)`, for an item that is an object
abbrev pub assign : Value → Value → Value
assign (object source) (object own) = object (entries_of (insert_all (pairs source) (pairs own)))
assign source item = item

-- what becomes of the object of this number, if the list still has it
abbrev pub update : ℕ → (Value → Value) → List (ℕ × Value) → List (ℕ × Value)
update n f [] = []
update n f ((m, v) ∷ vs) = if m == n then (m, f v) ∷ vs else (m, v) ∷ update n f vs

unfoldable pub load_runbook_recommendations : Context → Runbook → Runbook
load_runbook_recommendations c p =
    if null c.endpoint
    then p
    else record p { loading = true; error = []; in_flight = p.in_flight ++ listing ∷ [] }

-- `loadRunbookOutcome` up to its request, for a call on its own or one that follows an initiation
abbrev pub ask_outcome : Task → Runbook → Runbook
ask_outcome t p = record p { outcome_loading = true; error = []; in_flight = p.in_flight ++ t ∷ [] }

unfoldable pub load_runbook_outcome : Context → Runbook → Runbook
load_runbook_outcome c p = if null c.endpoint then p else ask_outcome outcome p

unfoldable pub initiate_runbook_recommendation : Context → ℕ → Runbook → Runbook
initiate_runbook_recommendation c item p =
    if null c.template || p.is_initiating then p else record p {
      is_initiating = true;
      error = [];
      in_flight = p.in_flight ++ initiating item ∷ [];
    }

abbrev pub settle_listing : Result → Runbook → Runbook
settle_listing (failed m) p = record p { error = m; loading = false }
settle_listing (loaded b) p =
    let items = rows (codes "results") b in
    record p { results = numbered p.next items; next = number_after p.next items; loading = false }

abbrev pub settle_outcome : Result → Runbook → Runbook
settle_outcome (failed m) p = record p { error = m; outcome_loading = false }
settle_outcome (loaded b) p = record p {
  outcome = property (codes "outcome") b;
  outcome_loading = false;
}

-- `if (result.recommendation) Object.assign(item, result.recommendation)`
abbrev pub assign_recommendation : ℕ → Value → Runbook → Runbook
assign_recommendation item found p =
    if truthy found then record p { results = update item (assign found) p.results } else p

abbrev pub settle_initiating : Context → ℕ → Result → Runbook → Runbook
settle_initiating c item (failed m) p = record p { error = m; is_initiating = false }
settle_initiating c item (loaded b) p =
    let q = assign_recommendation item (property (codes "recommendation") b) p in
    if null c.endpoint then record q { is_initiating = false } else ask_outcome following q

abbrev pub outcome_error : Text
outcome_error = codes "结果加载失败"

abbrev pub end_task : Context → Task → Reply → Runbook → Runbook
end_task c listing r p = settle_listing (read_reply c.show (codes "运行手册建议加载失败") r) p
end_task c outcome r p = settle_outcome (read_reply c.show outcome_error r) p
end_task c (initiating item) r p = settle_initiating c item (read_reply c.show (codes "提交审批失败") r) p
end_task c following r p = record (settle_outcome (read_reply c.show outcome_error r) p) {
  is_initiating = false;
}

unfoldable pub reply : Context → ℕ → Reply → Runbook → Runbook
reply c n r p = elim (pick n p.in_flight) [
  | none ↦ p
  | some (t, rest) ↦ end_task c t r (record p { in_flight = rest })
]

-- The template disables each of the three buttons while what it starts is awaited.
pub data Event : Type 0 where
  lists : Event
  opens : Event
  initiates : ℕ → Event
  replies : ℕ → Reply → Event

unfoldable pub step : Context → Runbook → Event → Runbook
unfolding load_runbook_recommendations load_runbook_outcome initiate_runbook_recommendation reply
step c p lists = if p.loading then p else load_runbook_recommendations c p
step c p opens = if p.outcome_loading then p else load_runbook_outcome c p
step c p (initiates item) = if p.is_initiating then p else initiate_runbook_recommendation c item p
step c p (replies n r) = reply c n r p

unfoldable pub run : Context → Runbook → List Event → Runbook
unfolding step
run c p [] = p
run c p (e ∷ es) = run c (step c p e) es
