-- ===== src/Aiops/Investigations/Awaited.antt =====
-- The calls for investigations that are awaited, over every history.
use centos_info_collect.Base.{
  ℕ, suc, ◌≤◌, ◌≡◌, refl, true, false, not, ◌||◌, Option, none, some, List, [], ◌∷◌, Text, null,
  pick, All-append, All-pick, tally-snoc, tally-pick, ◌==◌, ℕ_eq, beq_self, if-elim, Option-cases,
  inl, inr, arith,
}
use centos_info_collect.Metric.Values.{Value, property, truthy}
use centos_info_collect.Aiops.Replies.{Reply, Result, failed, loaded, or_default, read_reply}
use centos_info_collect.Aiops.Investigations.{
  Task, listing, opening, reading, creating, giving, Feedback, Investigations, Context, new,
  load_investigations, load_investigation_detail, load_investigation_feedback, fail, detail_error,
  settle_opening, end_opening, dates_error, post_investigation, create_investigation, create_error,
  settle_creating, submit_investigation_feedback, settle_giving, end_task, reply, Event, lists,
  opens, creates, gives, fills, writes, filters, replies, step, run, is_nullish,
}
use centos_info_collect.Aiops.Investigations.Calls.{
  version, has_version, creates_one, gives_one, IsAwaited, Before, Alike, begin-IsAwaited,
  end_current, end_stale, end_listing-IsAwaited, end_reading-IsAwaited,
}

-- The detail that has come goes on to await the feedback.
feedback-IsAwaited :
    (c : Context) (v : ℕ) (id : Value) (p q : Investigations)
    → (v == p.request_id) ≡ true
    → Alike q p
    → q.loading ≡ p.loading
    → Before (opening v) p
    → IsAwaited (load_investigation_feedback c v id q)
feedback-IsAwaited c v id p q y a i b =
    let ((number, calls), (s, g)) = a in
    let t = reading v in
    if-elim IsAwaited (null c.template || not (truthy id))
      (λ k. end_current (opening v) p (record q { loading = false }) refl y a refl b)
      (λ k. record {
        up_to =
            rw (number, calls)
              (All-append (λ u. version u ≤ p.request_id) p.in_flight (t ∷ []) b.up_to.1
                (b.up_to.0, tt));
        current =
            rw (number, calls, i)
              (ground (arith, tally-snoc (has_version p.request_id) p.in_flight t, y, b.current));
        saved = rw (calls, s) (ground (arith, tally-snoc creates_one p.in_flight t, b.saved));
        given = rw (calls, g) (ground (arith, tally-snoc gives_one p.in_flight t, b.given));
      })

settle_opening-IsAwaited :
    (c : Context) (v : ℕ) (r : Result) (p : Investigations)
    → (v == p.request_id) ≡ true
    → Before (opening v) p
    → IsAwaited (settle_opening c v r p)
settle_opening-IsAwaited c v (failed m) p y b =
    end_current (opening v) p (fail m p) refl y ((refl, refl), (refl, refl)) refl b
settle_opening-IsAwaited c v (loaded d) p y b =
    let found : Value = property _ d in
    let q : Investigations = record p {
      selected = found;
      feedback = record p.feedback { note = []; error = []; results = [] };
    } in
    let a : Alike q p = ((refl, refl), (refl, refl)) in
    if-elim IsAwaited (is_nullish found)
      (λ k.
        end_current (opening v) p (fail (or_default c.property_error detail_error) q) refl y a refl
          b)
      (λ k. feedback-IsAwaited c v (property _ found) p q y a refl b)

end_opening-IsAwaited :
    (c : Context) (v : ℕ) (r : Reply) (p : Investigations)
    → Before (opening v) p
    → IsAwaited (end_opening c v r p)
end_opening-IsAwaited c v r p b =
    if-elim IsAwaited (v == p.request_id)
      (λ y. settle_opening-IsAwaited c v (read_reply c.show detail_error r) p y b)
      (λ n. end_stale (opening v) p p refl n ((refl, refl), (refl, refl)) refl b)

settle_creating-IsAwaited :
    (r : Result) (p : Investigations) → Before creating p → IsAwaited (settle_creating r p)
settle_creating-IsAwaited (failed m) p b = record {
  up_to = b.up_to.1;
  current = b.current;
  saved = ground (arith, b.saved);
  given = b.given;
}
settle_creating-IsAwaited (loaded d) p b = record {
  up_to = b.up_to.1;
  current = b.current;
  saved = ground (arith, b.saved);
  given = b.given;
}

settle_giving-saving : (r : Result) (f : Feedback) → (settle_giving r f).saving ≡ false
settle_giving-saving (failed m) f = refl
settle_giving-saving (loaded b) f = refl

end_giving-IsAwaited :
    (r : Result) (p : Investigations)
    → Before giving p
    → IsAwaited (record p { feedback = settle_giving r p.feedback })
end_giving-IsAwaited r p b = record {
  up_to = b.up_to.1;
  current = b.current;
  saved = b.saved;
  given = rw (settle_giving-saving r p.feedback) (ground (arith, b.given));
}

end_task-IsAwaited :
    (c : Context) (t : Task) (r : Reply) (p : Investigations)
    → Before t p
    → IsAwaited (end_task c t r p)
unfolding end_task
end_task-IsAwaited c (listing v) r p b = end_listing-IsAwaited c v r p b
end_task-IsAwaited c (opening v) r p b = end_opening-IsAwaited c v r p b
end_task-IsAwaited c (reading v) r p b = end_reading-IsAwaited c v r p b
end_task-IsAwaited c creating r p b =
    settle_creating-IsAwaited (read_reply c.show create_error r) p b
end_task-IsAwaited c giving r p b = end_giving-IsAwaited (read_reply c.show _ r) p b

-- a call that ends, as the first of those in flight
pick-Before :
    (n : ℕ) (p : Investigations) {t : Task} {rest : List Task}
    → pick n p.in_flight ≡ some (t, rest)
    → IsAwaited p
    → Before t (record p { in_flight = rest })
pick-Before n p {t} {rest} e a = record {
  up_to = All-pick (λ u. version u ≤ p.request_id) n p.in_flight e a.up_to;
  current = ground (arith, tally-pick (has_version p.request_id) n p.in_flight e, a.current);
  saved = ground (arith, tally-pick creates_one n p.in_flight e, a.saved);
  given = ground (arith, tally-pick gives_one n p.in_flight e, a.given);
}

reply-IsAwaited :
    (c : Context) (n : ℕ) (r : Reply) (p : Investigations) → IsAwaited p → IsAwaited (reply c n r p)
unfolding reply
reply-IsAwaited c n r p a = elim (Option-cases (pick n p.in_flight)) [
  | inl e ↦ rw (e, reply) a
  | inr ((t, rest), e) ↦
      rw (e, reply) (end_task-IsAwaited c t r (record p { in_flight = rest }) (pick-Before n p e a))
]

post-IsAwaited :
    (o : Option Text) (p : Investigations)
    → p.saving ≡ false
    → IsAwaited p
    → IsAwaited (post_investigation o p)
post-IsAwaited none p i a = record {
  up_to =
      All-append (λ u. version u ≤ p.request_id) p.in_flight (creating ∷ []) a.up_to
        (omega arith, tt);
  current = ground (arith, tally-snoc (has_version p.request_id) p.in_flight creating, a.current);
  saved = ground (arith, tally-snoc creates_one p.in_flight creating, a.saved, i);
  given = ground (arith, tally-snoc gives_one p.in_flight creating, a.given);
}
post-IsAwaited (some m) p i a = record {
  up_to = a.up_to;
  current = a.current;
  saved = ground (arith, a.saved, i);
  given = a.given;
}

create-IsAwaited :
    (c : Context) (p : Investigations)
    → p.saving ≡ false
    → IsAwaited p
    → IsAwaited (create_investigation c p)
unfolding create_investigation
create-IsAwaited c p i a =
    if-elim IsAwaited
      (null c.endpoint
        || null p.form.title
        || null p.form.host_id
        || null p.form.start
        || null p.form.finish)
      (λ y. a) (λ n. post-IsAwaited (dates_error c p.form) p i a)

submit-IsAwaited :
    (c : Context) (p : Investigations) → IsAwaited p → IsAwaited (submit_investigation_feedback c p)
unfolding submit_investigation_feedback
submit-IsAwaited c p a =
    if-elim IsAwaited (not (truthy p.selected) || null c.template || p.feedback.saving) (λ y. a)
      (λ n. record {
        up_to =
            All-append (λ u. version u ≤ p.request_id) p.in_flight (giving ∷ []) a.up_to
              (omega arith, tt);
        current =
            ground (arith, tally-snoc (has_version p.request_id) p.in_flight giving, a.current);
        saved = ground (arith, tally-snoc creates_one p.in_flight giving, a.saved);
        given = ground (arith, tally-snoc gives_one p.in_flight giving, a.given, n);
      })

step-IsAwaited :
    (c : Context) (p : Investigations) (e : Event) → IsAwaited p → IsAwaited (step c p e)
unfolding step load_investigations load_investigation_detail
step-IsAwaited c p lists a =
    if-elim IsAwaited p.loading (λ y. a)
      (λ n.
        if-elim IsAwaited (null c.endpoint) (λ y. a)
          (λ k. begin-IsAwaited listing p (refl, (beq_self (suc p.request_id), (refl, refl))) a))
step-IsAwaited c p (opens item) a =
    if-elim IsAwaited (not (truthy item) || null c.endpoint) (λ y. a)
      (λ k. begin-IsAwaited opening p (refl, (beq_self (suc p.request_id), (refl, refl))) a)
step-IsAwaited c p creates a = if-elim IsAwaited p.saving (λ y. a) (λ n. create-IsAwaited c p n a)
step-IsAwaited c p gives a = submit-IsAwaited c p a
step-IsAwaited c p (fills f) a = record {
  up_to = a.up_to;
  current = a.current;
  saved = a.saved;
  given = a.given;
}
step-IsAwaited c p (writes n) a = record {
  up_to = a.up_to;
  current = a.current;
  saved = a.saved;
  given = a.given;
}
step-IsAwaited c p (filters f) a = record {
  up_to = a.up_to;
  current = a.current;
  saved = a.saved;
  given = a.given;
}
step-IsAwaited c p (replies n r) a = reply-IsAwaited c n r p a

run-IsAwaited :
    (c : Context) (p : Investigations) (es : List Event) → IsAwaited p → IsAwaited (run c p es)
unfolding run
run-IsAwaited c p [] a = a
run-IsAwaited c p (e ∷ es) a = run-IsAwaited c (step c p e) es (step-IsAwaited c p e a)

-- From the new page on, after any history of buttons, rows opened, forms filled and replies in any
-- order, one current call for the list or a detail is in flight if the investigations are marked as
-- loading, one call that creates if one is marked as saved, and one that gives feedback if that is
-- marked as saved, and otherwise none: no mark is left without a reply to come, and nothing is sent
-- twice at a time.
pub run-new-IsAwaited : (c : Context) (es : List Event) → IsAwaited (run c new es)
run-new-IsAwaited c es =
    run-IsAwaited c new es (record { up_to = tt; current = refl; saved = refl; given = refl })
