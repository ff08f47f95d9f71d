-- ===== src/Aiops/Investigations.antt =====
-- The investigations of static/js/aiops-vue.js: `loadInvestigations`, `loadInvestigationDetail`,
-- `loadInvestigationFeedback`, `createInvestigation`, `submitInvestigationFeedback`,
-- `investigationResults` and `setInvestigationWindow`.
use centos_info_collect.Base.{
  ℕ, suc, ◌-◌, ◌*◌, Bool, true, false, not, ◌&&◌, ◌||◌, Option, none, some, List, [], ◌∷◌, ◌++◌,
  Text, codes, null, pick, select, length, ltb, ◌==◌, ℕ_eq, list_eq, if◌then◌else◌,
}
use centos_info_collect.Metric.Decimals.{to_text}
use centos_info_collect.Metric.Values.{Value, null_value, undefined, string, property, truthy}
use centos_info_collect.Aiops.Replies.{Reply, Result, failed, loaded, or_default, read_reply}
use centos_info_collect.Aiops.Loads.Methods.{rows}
pub mod Calls
pub mod Awaited
pub mod Overtaken

-- A call that awaits a reply. `reading` is `loadInvestigationDetail` while it awaits the feedback.
pub data Task : Type 0 where
  listing : ℕ → Task
  opening : ℕ → Task
  reading : ℕ → Task
  creating : Task
  giving : Task

pub record Form : Type 0 where
  pub title : Text
  pub host_id : Text
  pub service_id : Text
  pub window_key : Text
  pub start : Text
  pub finish : Text

pub record Feedback : Type 0 where
  pub loading : Bool
  pub saving : Bool
  pub error : Text
  pub results : List Value
  pub classification : Text
  pub note : Text

-- `selected` is `null_value` for none.
pub record Investigations : Type 0 where
  pub loading : Bool
  pub saving : Bool
  pub error : Text
  pub results : List Value
  pub selected : Value
  pub request_id : ℕ
  pub filter : Text
  pub feedback : Feedback
  pub form : Form
  pub in_flight : List Task

-- What the page's data gives, empty where it is missing, and what the browser does: how `Error`
-- makes a text of a value, the message of the error that `toISOString` throws for a text that is no
-- date, and that of reading a property of `null` or `undefined`.
pub record Context : Type 0 where
  pub endpoint : Text
  pub template : Text
  pub show : Value → Text
  pub date_error : Text → Option Text
  pub property_error : Text

abbrev pub new : Investigations
new = record {
  loading = false;
  saving = false;
  error = [];
  results = [];
  selected = null_value;
  request_id = 0;
  filter = codes "all";
  feedback = record {
    loading = false;
    saving = false;
    error = [];
    results = [];
    classification = codes "effective";
    note = [];
  };
  form = record {
    title = [];
    host_id = [];
    service_id = [];
    window_key = codes "24h";
    start = [];
    finish = [];
  };
  in_flight = [];
}

-- `item.key === text`
abbrev pub says : Text → Text → Value → Bool
says key text item = elim (property key item) [ string s ↦ s == text | _ ↦ false ]

unfoldable pub investigation_results : Investigations → List Value
investigation_results p =
    if p.filter == codes "critical"
    then select (says (codes "risk") (codes "critical")) p.results
    else if p.filter == codes "partial"
    then select (says (codes "status") (codes "partial")) p.results
    else if p.filter == codes "completed"
    then select (says (codes "status") (codes "completed")) p.results
    else p.results

-- the call of a versioned loader, with the task it becomes
abbrev pub begin : (ℕ → Task) → Investigations → Investigations
begin task p = record p {
  request_id = suc p.request_id;
  loading = true;
  error = [];
  in_flight = p.in_flight ++ task (suc p.request_id) ∷ [];
}

unfoldable pub load_investigations : Context → Investigations → Investigations
load_investigations c p = if null c.endpoint then p else begin listing p

unfoldable pub load_investigation_detail : Context → Value → Investigations → Investigations
load_investigation_detail c item p =
    if not (truthy item) || null c.endpoint then p else begin opening p

abbrev pub end_loading : ℕ → Investigations → Investigations
end_loading v p = if v == p.request_id then record p { loading = false } else p

abbrev pub fail : Text → Investigations → Investigations
fail m p = record p { error = m; loading = false }

abbrev pub settle_listing : Result → Investigations → Investigations
settle_listing (failed m) p = fail m p
settle_listing (loaded b) p = record p { results = rows (codes "results") b; loading = false }

abbrev pub end_listing : Context → ℕ → Reply → Investigations → Investigations
end_listing c v r p =
    if v == p.request_id then settle_listing (read_reply c.show (codes "调查列表加载失败") r) p else p

abbrev pub is_nullish : Value → Bool
is_nullish null_value = true
is_nullish undefined = true
is_nullish v = false

-- `loadInvestigationFeedback` up to its request, or to its return
abbrev pub load_investigation_feedback : Context → ℕ → Value → Investigations → Investigations
load_investigation_feedback c v id p =
    if null c.template || not (truthy id) then record p { loading = false } else record p {
      feedback = record p.feedback { loading = true; error = [] };
      in_flight = p.in_flight ++ reading v ∷ [];
    }

abbrev pub detail_error : Text
detail_error = codes "调查详情加载失败"

-- The reply to a call that is current.
abbrev pub settle_opening : Context → ℕ → Result → Investigations → Investigations
settle_opening c v (failed m) p = fail m p
settle_opening c v (loaded b) p =
    let found = property (codes "investigation") b in
    let q = record p {
      selected = found;
      feedback = record p.feedback { note = []; error = []; results = [] };
    } in
    if is_nullish found
    then fail (or_default c.property_error detail_error) q
    else load_investigation_feedback c v (property (codes "id") found) q

abbrev pub end_opening : Context → ℕ → Reply → Investigations → Investigations
end_opening c v r p =
    if v == p.request_id then settle_opening c v (read_reply c.show detail_error r) p else p

abbrev pub settle_reading : Result → Feedback → Feedback
settle_reading (failed m) f = record f { error = m; loading = false }
settle_reading (loaded b) f = record f { results = rows (codes "results") b; loading = false }

abbrev pub feedback_error : Text
feedback_error = codes "反馈加载失败"

-- The feedback is not asked for its version.
abbrev pub end_reading : Context → ℕ → Reply → Investigations → Investigations
end_reading c v r p =
    end_loading v
      (record p { feedback = settle_reading (read_reply c.show feedback_error r) p.feedback })

abbrev pub create_error : Text
create_error = codes "调查创建失败"

-- the error that the two dates throw
abbrev pub dates_error : Context → Form → Option Text
dates_error c f = elim (c.date_error f.start) [ none ↦ c.date_error f.finish | some m ↦ some m ]

abbrev pub post_investigation : Option Text → Investigations → Investigations
post_investigation none p = record p {
  saving = true;
  error = [];
  in_flight = p.in_flight ++ creating ∷ [];
}
post_investigation (some m) p = record p { error = or_default m create_error; saving = false }

unfoldable pub create_investigation : Context → Investigations → Investigations
create_investigation c p =
    let f = p.form in
    if null c.endpoint || null f.title || null f.host_id || null f.start || null f.finish
    then p
    else post_investigation (dates_error c f) p

abbrev pub settle_creating : Result → Investigations → Investigations
settle_creating (failed m) p = record p { error = m; saving = false }
settle_creating (loaded b) p =
    let made = property (codes "investigation") b in
    record p {
      selected = made;
      results = made ∷ p.results;
      form = record p.form { title = [] };
      saving = false;
    }

unfoldable pub submit_investigation_feedback : Context → Investigations → Investigations
submit_investigation_feedback c p =
    if not (truthy p.selected) || null c.template || p.feedback.saving then p else record p {
      feedback = record p.feedback { saving = true; error = [] };
      in_flight = p.in_flight ++ giving ∷ [];
    }

abbrev pub settle_giving : Result → Feedback → Feedback
settle_giving (failed m) f = record f { error = m; saving = false }
settle_giving (loaded b) f = record f {
  results = property (codes "feedback") b ∷ f.results;
  note = [];
  saving = false;
}

unfoldable pub end_task : Context → Task → Reply → Investigations → Investigations
end_task c (listing v) r p = end_listing c v r p
end_task c (opening v) r p = end_opening c v r p
end_task c (reading v) r p = end_reading c v r p
end_task c creating r p = settle_creating (read_reply c.show create_error r) p
end_task c giving r p = record p {
  feedback = settle_giving (read_reply c.show (codes "反馈提交失败") r) p.feedback;
}

unfoldable pub reply : Context → ℕ → Reply → Investigations → Investigations
unfolding end_task
reply c n r p = elim (pick n p.in_flight) [
  | none ↦ p
  | some (t, rest) ↦ end_task c t r (record p { in_flight = rest })
]

-- the fields of a `Date`, with the month counted from 1
pub record DateFields : Type 0 where
  pub year : ℕ
  pub month : ℕ
  pub day : ℕ
  pub hours : ℕ
  pub minutes : ℕ

-- `String(number).padStart(2, '0')`
abbrev pub pad : ℕ → Text
pad n = if ltb (length (to_text n)) 2 then codes "0" ++ to_text n else to_text n

abbrev pub format_investigation_date_time : DateFields → Text
format_investigation_date_time d =
    to_text d.year
    ++ (codes "-"
        ++ (pad d.month
            ++ (codes "-"
                ++ (pad d.day ++ (codes "T" ++ (pad d.hours ++ (codes ":" ++ pad d.minutes)))))))

abbrev pub window_hours : Text → ℕ
window_hours key =
    if key == codes "1h"
    then 1
    else if key == codes "6h"
    then 6
    else if key == codes "7d"
    then 24 * 7
    else 24

-- The clock is in milliseconds; `fields` is what `Date` makes of it in the local time.
unfoldable pub set_investigation_window : (ℕ → DateFields) → ℕ → Investigations → Investigations
set_investigation_window fields now p = record p {
  form = record p.form {
    start =
        format_investigation_date_time (fields (now - window_hours p.form.window_key * 3600000));
    finish = format_investigation_date_time (fields now);
  };
}

-- `lists`, `creates` and `gives` are buttons; the template disables the first while the list loads
-- and the second while an investigation is saved. `opens` is a click on a row.
pub data Event : Type 0 where
  lists : Event
  opens : Value → Event
  creates : Event
  gives : Event
  fills : Form → Event
  writes : Text → Event
  filters : Text → Event
  replies : ℕ → Reply → Event

unfoldable pub step : Context → Investigations → Event → Investigations
unfolding load_investigations load_investigation_detail create_investigation
    submit_investigation_feedback reply
step c p lists = if p.loading then p else load_investigations c p
step c p (opens item) = load_investigation_detail c item p
step c p creates = if p.saving then p else create_investigation c p
step c p gives = submit_investigation_feedback c p
step c p (fills f) = record p { form = f }
step c p (writes n) = record p { feedback = record p.feedback { note = n } }
step c p (filters f) = record p { filter = f }
step c p (replies n r) = reply c n r p

unfoldable pub run : Context → Investigations → List Event → Investigations
unfolding step
run c p [] = p
run c p (e ∷ es) = run c (step c p e) es
