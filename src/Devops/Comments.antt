-- ===== src/Devops/Comments.antt =====
-- `syncApprovalComments` of static/js/devops-vue.js: the drafts of comments on approvals.
use centos_info_collect.Base.{
  ℕ, Option, none, some, List, [], ◌∷◌, Text, map, find, get, insert, ◌==◌, ℕ_eq,
}
use centos_info_collect.Devops.Work.{Approval, or_text}

-- `this.approvalComments[id]`, empty where there is none
abbrev pub draft : List (ℕ × Text) → ℕ → Text
draft old id = elim (get id old) [ none ↦ [] | some t ↦ t ]

abbrev pub comment_of : List (ℕ × Text) → Approval → Text
comment_of old a = or_text (draft old a.id) a.comment

abbrev pub add_comments : List (ℕ × Text) → List Approval → List (ℕ × Text) → List (ℕ × Text)
add_comments old [] new = new
add_comments old (a ∷ rest) new = add_comments old rest (insert a.id (comment_of old a) new)

unfoldable pub sync_approval_comments : List Approval → List (ℕ × Text) → List (ℕ × Text)
sync_approval_comments approvals old = add_comments old approvals []

abbrev pub ids : List Approval → List ℕ
ids approvals = map (λ (a : Approval). a.id) approvals

-- the approval of this number
abbrev pub approval_of : ℕ → List Approval → Option Approval
approval_of k approvals = find (λ a. a.id == k) approvals

abbrev pub kept : List (ℕ × Text) → Option Approval → Option Text → Option Text
kept old none before = before
kept old (some a) before = some (comment_of old a)
