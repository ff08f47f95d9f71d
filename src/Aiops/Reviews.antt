-- ===== src/Aiops/Reviews.antt =====
-- The suggestions on the quality of alerts in static/js/aiops-vue.js: `reviewAlertQuality`, with the
-- mark that each suggestion has while its review is sent, and the reload of the suggestions. The
-- objects of the list are told apart by a number that each gets when its list is loaded.
use centos_info_collect.Base.{
  ℕ, ◌≡◌, refl, Bool, true, false, ◌||◌, none, some, List, [], ◌∷◌, ◌++◌, Text, codes, null, find,
  pick, ◌==◌, ℕ_eq, list_eq, if◌then◌else◌, arith,
}
use centos_info_collect.Metric.Values.{Value, property}
use centos_info_collect.Aiops.Replies.{Reply, Result, failed, loaded, read_reply}

-- `key` is `suggestion_key`, empty where it is missing.
pub record Suggestion : Type 0 where
  pub id : ℕ
  pub key : Text
  pub reviewing : Bool
  pub review : Value

-- `in_flight` has the number of the object for each review that is sent, with the new status.
pub record Reviews : Type 0 where
  pub error : Text
  pub results : List Suggestion
  pub in_flight : List (ℕ × Text)

abbrev pub change : ℕ → (Suggestion → Suggestion) → List Suggestion → List Suggestion
change n f [] = []
change n f (s ∷ ss) = if s.id == n then f s ∷ ss else s ∷ change n f ss

abbrev pub mark : Bool → Suggestion → Suggestion
mark b s = record s { reviewing = b }

abbrev pub send_review : Suggestion → Text → Reviews → Reviews
send_review s status p = record p {
  results = change s.id (mark true) p.results;
  in_flight = p.in_flight ++ (s.id, status) ∷ [];
}

-- The call for an object of the list; the template disables its buttons while it is marked.
unfoldable pub review_alert_quality : Text → ℕ → Text → Reviews → Reviews
review_alert_quality template n status p = elim (find (λ s. s.id == n) p.results) [
  | none ↦ p
  | some s ↦ if null template || null s.key || s.reviewing then p else send_review s status p
]

abbrev pub settle : ℕ → Result → Reviews → Reviews
settle n (failed m) p = record p { error = m; results = change n (mark false) p.results }
settle n (loaded b) p = record p {
  results =
      change n (λ s. record s { review = property (codes "review") b; reviewing = false })
        p.results;
}

unfoldable pub reply : (Value → Text) → ℕ → Reply → Reviews → Reviews
reply show i r p = elim (pick i p.in_flight) [
  | none ↦ p
  | some ((n, status), rest) ↦
      settle n (read_reply show (codes "审核状态更新失败") r) (record p { in_flight = rest })
]

-- `{ ... }[key] || fallback`, for a key that is no property of the prototypes
abbrev pub label_or : List (Text × Text) → Text → Text → Text
label_or [] key fallback = fallback
label_or ((k, label) ∷ rest) key fallback =
    let other = label_or rest key fallback in if k == key then label else other

abbrev pub or_dash : Text → Text
or_dash s = if null s then codes "-" else s

abbrev pub quality_status_label : Text → Text
quality_status_label s =
    label_or
      ((codes "open", codes "待审核")
        ∷ (codes "accepted", codes "已接受")
        ∷ (codes "rejected", codes "已拒绝")
        ∷ (codes "implemented", codes "已实施")
        ∷ [])
      s (or_dash s)

abbrev pub quality_status_class : Text → Text
quality_status_class s =
    label_or
      ((codes "open", codes "warning")
        ∷ (codes "accepted", codes "info")
        ∷ (codes "rejected", codes "danger")
        ∷ (codes "implemented", codes "success")
        ∷ [])
      s (codes "info")

abbrev pub feedback_label : Text → Text
feedback_label s =
    label_or
      ((codes "effective", codes "有效")
        ∷ (codes "partial", codes "部分有效")
        ∷ (codes "ineffective", codes "无效")
        ∷ [])
      s (or_dash s)

abbrev pub feedback_class : Text → Text
feedback_class s =
    label_or
      ((codes "effective", codes "success")
        ∷ (codes "partial", codes "warning")
        ∷ (codes "ineffective", codes "danger")
        ∷ [])
      s (codes "info")

-- An object that is not in the list is not changed, nor is any other.
change-absent :
    (n : ℕ) (f : Suggestion → Suggestion) (ss : List Suggestion)
    → find (λ (s : Suggestion). s.id == n) ss ≡ none
    → change n f ss ≡ ss
change-absent n f [] h = refl
change-absent n f (s ∷ ss) h = ground (arith, change-absent n f ss)

-- The reply to the review of a suggestion whose list was loaded again changes no suggestion: it is
-- for an object that is no longer shown.
pub settle-absent :
    (n : ℕ) (r : Result) (p : Reviews)
    → find (λ (s : Suggestion). s.id == n) p.results ≡ none
    → (settle n r p).results ≡ p.results
settle-absent n (failed m) p h = change-absent n (mark false) p.results h
settle-absent n (loaded b) p h =
    change-absent n (λ s. record s { review = property (codes "review") b; reviewing = false })
      p.results h
