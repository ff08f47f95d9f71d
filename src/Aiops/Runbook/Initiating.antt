-- ===== src/Aiops/Runbook/Initiating.antt =====
-- A recommendation of a runbook is initiated once at a time.
use centos_info_collect.Base.{
  ℕ, ◌+◌, ◌≡◌, refl, Bool, true, false, ◌||◌, List, [], ◌∷◌, ◌++◌, null, pick, tally, tally-snoc,
  tally-pick, if◌then◌else◌, if-elim, Option-cases, inl, inr, arith,
}
use centos_info_collect.Metric.Values.{Value, property, truthy}
use centos_info_collect.Aiops.Replies.{Reply, Result, failed, loaded, read_reply}
use centos_info_collect.Aiops.Runbook.{
  Task, listing, outcome, initiating, following, Runbook, Context, new,
  load_runbook_recommendations, load_runbook_outcome, initiate_runbook_recommendation,
  settle_listing, settle_outcome, assign_recommendation, settle_initiating, outcome_error, end_task,
  reply, Event, lists, opens, initiates, replies, step, run,
}

abbrev pub initiates_one : Task → Bool
initiates_one listing = false
initiates_one outcome = false
initiates_one (initiating item) = true
initiates_one following = true

abbrev pub lists_one : Task → Bool
lists_one listing = true
lists_one outcome = false
lists_one (initiating item) = false
lists_one following = false

abbrev one_if : Bool → ℕ
one_if b = if b then 1 else 0

-- One call in flight initiates or follows an initiation while one is marked, and none otherwise; and
-- so for the list.
pub record IsSingle (p : Runbook) : Type 0 where
  pub initiated : tally initiates_one p.in_flight ≡ (if p.is_initiating then 1 else 0)
  pub listed : tally lists_one p.in_flight ≡ (if p.loading then 1 else 0)

-- the state with this call in flight as well
abbrev Before : Task → Runbook → Type 0
Before t p = IsSingle (record p { in_flight = t ∷ p.in_flight })

settle_listing-IsSingle :
    (r : Result) (p : Runbook) → Before listing p → IsSingle (settle_listing r p)
settle_listing-IsSingle (failed m) p b = record {
  initiated = b.initiated;
  listed = ground (arith, b.listed);
}
settle_listing-IsSingle (loaded v) p b = record {
  initiated = b.initiated;
  listed = ground (arith, b.listed);
}

settle_outcome-IsSingle : (r : Result) (p : Runbook) → IsSingle p → IsSingle (settle_outcome r p)
settle_outcome-IsSingle (failed m) p b = record { initiated = b.initiated; listed = b.listed }
settle_outcome-IsSingle (loaded v) p b = record { initiated = b.initiated; listed = b.listed }

-- What follows an initiation ends it.
follow-IsSingle :
    (r : Result) (p : Runbook)
    → Before following p
    → IsSingle (record (settle_outcome r p) { is_initiating = false })
follow-IsSingle (failed m) p b = record {
  initiated = ground (arith, b.initiated);
  listed = b.listed;
}
follow-IsSingle (loaded v) p b = record {
  initiated = ground (arith, b.initiated);
  listed = b.listed;
}

assign-IsSingle :
    (t : Task) (item : ℕ) (found : Value) (p : Runbook)
    → Before t p
    → Before t (assign_recommendation item found p)
assign-IsSingle t item found p b =
    if-elim (Before t) (truthy found) (λ y. record { initiated = b.initiated; listed = b.listed })
      (λ n. b)

settle_initiating-IsSingle :
    (c : Context) (item : ℕ) (r : Result) (p : Runbook)
    → Before (initiating item) p
    → IsSingle (settle_initiating c item r p)
settle_initiating-IsSingle c item (failed m) p b = record {
  initiated = ground (arith, b.initiated);
  listed = b.listed;
}
settle_initiating-IsSingle c item (loaded v) p b =
    let q : Runbook = assign_recommendation item (property _ v) p in
    let d : Before (initiating item) q =
      assign-IsSingle (initiating item) item (property _ v) p b in
    if-elim IsSingle (null c.endpoint)
      (λ y. record { initiated = ground (arith, d.initiated); listed = d.listed })
      (λ n. record {
        initiated = ground (arith, tally-snoc initiates_one q.in_flight following, d.initiated);
        listed = ground (arith, tally-snoc lists_one q.in_flight following, d.listed);
      })

end_task-IsSingle :
    (c : Context) (t : Task) (r : Reply) (p : Runbook) → Before t p → IsSingle (end_task c t r p)
end_task-IsSingle c listing r p b = settle_listing-IsSingle (read_reply c.show _ r) p b
end_task-IsSingle c outcome r p b =
    settle_outcome-IsSingle (read_reply c.show outcome_error r) p
      (record { initiated = b.initiated; listed = b.listed })
end_task-IsSingle c (initiating item) r p b =
    settle_initiating-IsSingle c item (read_reply c.show _ r) p b
end_task-IsSingle c following r p b = follow-IsSingle (read_reply c.show outcome_error r) p b

reply-IsSingle :
    (c : Context) (n : ℕ) (r : Reply) (p : Runbook) → IsSingle p → IsSingle (reply c n r p)
unfolding reply
reply-IsSingle c n r p a = elim (Option-cases (pick n p.in_flight)) [
  | inl e ↦ rw (e, reply) a
  | inr ((t, rest), e) ↦
      rw (e, reply)
        (end_task-IsSingle c t r (record p { in_flight = rest })
          (record {
            initiated = ground (arith, tally-pick initiates_one n p.in_flight e, a.initiated);
            listed = ground (arith, tally-pick lists_one n p.in_flight e, a.listed);
          }))
]

-- a call that starts, with the marks it sets
starts-IsSingle :
    (t : Task) (p q : Runbook)
    → IsSingle p
    → q.in_flight ≡ p.in_flight ++ t ∷ []
    → one_if q.loading ≡ one_if p.loading + one_if (lists_one t)
    → one_if q.is_initiating ≡ one_if p.is_initiating + one_if (initiates_one t)
    → IsSingle q
starts-IsSingle t p q a f l i = record {
  initiated = rw f (ground (arith, tally-snoc initiates_one p.in_flight t, a.initiated, i));
  listed = rw f (ground (arith, tally-snoc lists_one p.in_flight t, a.listed, l));
}

step-IsSingle : (c : Context) (p : Runbook) (e : Event) → IsSingle p → IsSingle (step c p e)
unfolding step load_runbook_recommendations load_runbook_outcome initiate_runbook_recommendation
step-IsSingle c p lists a =
    if-elim IsSingle p.loading (λ y. a)
      (λ n.
        if-elim IsSingle (null c.endpoint) (λ y. a)
          (λ k. starts-IsSingle listing p _ a refl (ground (arith, n)) (omega arith)))
step-IsSingle c p opens a =
    if-elim IsSingle p.outcome_loading (λ y. a)
      (λ n.
        if-elim IsSingle (null c.endpoint) (λ y. a)
          (λ k. starts-IsSingle outcome p _ a refl (omega arith) (omega arith)))
step-IsSingle c p (initiates item) a =
    if-elim IsSingle p.is_initiating (λ y. a)
      (λ n.
        if-elim IsSingle (null c.template || p.is_initiating) (λ y. a)
          (λ k. starts-IsSingle (initiating item) p _ a refl (omega arith) (ground (arith, n))))
step-IsSingle c p (replies n r) a = reply-IsSingle c n r p a

run-IsSingle : (c : Context) (p : Runbook) (es : List Event) → IsSingle p → IsSingle (run c p es)
unfolding run
run-IsSingle c p [] a = a
run-IsSingle c p (e ∷ es) a = run-IsSingle c (step c p e) es (step-IsSingle c p e a)

-- From the new page on, after any history of buttons and replies in any order, one call in flight
-- initiates a recommendation, or loads the outcome that follows it, while the page is marked as
-- initiating, and none otherwise, and so for the list and its mark: no recommendation is sent for
-- approval while another is, and the mark goes once the last of the two requests has ended.
pub run-new-IsSingle : (c : Context) (es : List Event) → IsSingle (run c new es)
run-new-IsSingle c es = run-IsSingle c new es (record { initiated = refl; listed = refl })
