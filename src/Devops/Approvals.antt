-- ===== src/Devops/Approvals.antt =====
-- `decideApproval` and `reloadApprovals` of static/js/devops-vue.js.
use centos_info_collect.Base.{
  ℕ, ◌≡◌, Bool, true, false, ◌||◌, Option, none, some, List, [], ◌∷◌, ◌++◌, Text, codes, pick,
  length, length-append, length-pick, ◌==◌, ℕ_eq, list_eq, if◌then◌else◌, if-elim, Option-cases,
  inl, inr, arith,
}
use centos_info_collect.Devops.Fetch.{Reply, Outcome, failure, success, api_fetch}
use centos_info_collect.Devops.Work.{Approval}
use centos_info_collect.Devops.Comments.{draft, sync_approval_comments}

-- A call that awaits the server: for the decision on an approval, with the action and the comment
-- that it has sent, or for the reload after it.
pub data Task : Type 0 where
  deciding : ℕ → Text → Text → Task
  reloading : Task

-- `busy` is `approvalBusy`.
pub record Desk : Type 0 where
  pub approvals : List Approval
  pub comments : List (ℕ × Text)
  pub permissions : List Text
  pub busy : Option ℕ
  pub error : Text
  pub notice : Text
  pub in_flight : List Task

abbrev pub is_busy : Option ℕ → Bool
is_busy none = false
is_busy (some id) = true

-- an approval without a number has the number 0
unfoldable pub decide_approval : ℕ → Text → Desk → Desk
decide_approval id action p = if id == 0 || is_busy p.busy then p else record p {
  error = [];
  notice = [];
  busy = some id;
  in_flight = p.in_flight ++ deciding id action (draft p.comments id) ∷ [];
}

abbrev pub verb : Text → Text
verb action = if action == codes "approve" then codes "已批准" else codes "已拒绝"

-- the reply to a decision, with the title of the approval
abbrev pub settle_decision : Text → Outcome Text → Desk → Desk
settle_decision action (failure m) p = record p { error = m; busy = none }
settle_decision action (success title) p = record p {
  notice = verb action ++ (codes "：" ++ title);
  in_flight = p.in_flight ++ reloading ∷ [];
}

-- the two requests of the reload, the permissions and the approvals
abbrev pub settle_reload : Outcome (List Text × List Approval) → Desk → Desk
unfolding sync_approval_comments
settle_reload (failure m) p = record p { error = m; busy = none }
settle_reload (success (permissions, approvals)) p = record p {
  permissions = permissions;
  approvals = approvals;
  comments = sync_approval_comments approvals p.comments;
  busy = none;
}

-- What comes back: `decision` to a decision and `reload` to a reload.
pub record Answer : Type 0 where
  pub decision : Reply Text
  pub reload : Outcome (List Text × List Approval)

abbrev pub end_task : Task → Answer → Desk → Desk
unfolding api_fetch settle_reload
end_task (deciding id action comment) a p = settle_decision action (api_fetch a.decision) p
end_task reloading a p = settle_reload a.reload p

unfoldable pub reply : ℕ → Answer → Desk → Desk
unfolding end_task
reply n a p = elim (pick n p.in_flight) [
  | none ↦ p
  | some (t, rest) ↦ end_task t a (record p { in_flight = rest })
]

pub data Event : Type 0 where
  decides : ℕ → Text → Event
  writes : List (ℕ × Text) → Event
  replies : ℕ → Answer → Event

unfoldable pub step : Desk → Event → Desk
unfolding decide_approval reply
step p (decides id action) = decide_approval id action p
step p (writes comments) = record p { comments = comments }
step p (replies n a) = reply n a p

unfoldable pub run : Desk → List Event → Desk
unfolding step
run p [] = p
run p (e ∷ es) = run (step p e) es

-- One call is in flight while the desk is busy, and none otherwise.
abbrev pub IsExclusive : Desk → Type 0
IsExclusive p = length p.in_flight ≡ (if is_busy p.busy then 1 else 0)

decide-IsExclusive :
    (id : ℕ) (action : Text) (p : Desk) → IsExclusive p → IsExclusive (decide_approval id action p)
unfolding decide_approval
decide-IsExclusive id action p h =
    if-elim IsExclusive (id == 0 || is_busy p.busy) (λ y. h)
      (λ n.
        ground (arith, length-append p.in_flight (deciding id action (draft p.comments id) ∷ [])))

-- the desk with this call in flight as well
abbrev Before : Task → Desk → Type 0
Before t p = IsExclusive (record p { in_flight = t ∷ p.in_flight })

settle_decision-IsExclusive :
    (t : Task) (action : Text) (o : Outcome Text) (p : Desk)
    → Before t p
    → IsExclusive (settle_decision action o p)
settle_decision-IsExclusive t action (failure m) p h = ground arith
settle_decision-IsExclusive t action (success title) p h =
    ground (arith, length-append p.in_flight (reloading ∷ []))

settle_reload-IsExclusive :
    (t : Task) (o : Outcome (List Text × List Approval)) (p : Desk)
    → Before t p
    → IsExclusive (settle_reload o p)
unfolding settle_reload
settle_reload-IsExclusive t (failure m) p h = ground arith
settle_reload-IsExclusive t (success (permissions, approvals)) p h = ground arith

end_task-IsExclusive :
    (t : Task) (a : Answer) (p : Desk) → Before t p → IsExclusive (end_task t a p)
unfolding end_task
end_task-IsExclusive (deciding id action comment) a p h =
    settle_decision-IsExclusive (deciding id action comment) action (api_fetch a.decision) p h
end_task-IsExclusive reloading a p h = settle_reload-IsExclusive reloading a.reload p h

reply-IsExclusive : (n : ℕ) (a : Answer) (p : Desk) → IsExclusive p → IsExclusive (reply n a p)
unfolding reply
reply-IsExclusive n a p h = elim (Option-cases (pick n p.in_flight)) [
  | inl e ↦ rw (e, reply) h
  | inr ((t, rest), e) ↦
      rw (e, reply)
        (end_task-IsExclusive t a (record p { in_flight = rest })
          (ground (arith, length-pick n p.in_flight e, h)))
]

step-IsExclusive : (p : Desk) (e : Event) → IsExclusive p → IsExclusive (step p e)
unfolding step
step-IsExclusive p (decides id action) h = decide-IsExclusive id action p h
step-IsExclusive p (writes comments) h = h
step-IsExclusive p (replies n a) h = reply-IsExclusive n a p h

-- A desk that has one call in flight while it is busy and none otherwise stays so after any
-- decisions, comments and replies: at most one decision is sent at a time, whichever approvals the
-- user decides on, and the desk is free again once it and the reload after it have ended, however
-- they end.
pub run-IsExclusive : (p : Desk) (es : List Event) → IsExclusive p → IsExclusive (run p es)
unfolding run
run-IsExclusive p [] h = h
run-IsExclusive p (e ∷ es) h = run-IsExclusive (step p e) es (step-IsExclusive p e h)
