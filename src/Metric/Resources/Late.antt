-- ===== src/Metric/Resources/Late.antt =====
-- Replies that are too late for the resource they were asked for.
use centos_info_collect.Base.{
  ℕ, suc, ◌<◌, ◌≡◌, refl, List, [], ◌∷◌, Text, pick, All-pick, All, ℕ_eq, nat_eq_iff, list_eq,
  arith, inl, inr, subst, sym, ◌∙◌, Option-cases,
}
use centos_info_collect.Metric.Values.{Number, Value}
use centos_info_collect.Metric.Fetch.{Outcome}
use centos_info_collect.Metric.Rows.{ResourceData}
use centos_info_collect.Metric.Resources.{
  Kind, Request, ResourceState, Page, clear_metric_resource, reply, Event, replies, step, run,
}
use centos_info_collect.Metric.Resources.Requests.{IsEarlier, IsAwaited}

module _ {Row : Type 0} (convert : Value → Number) (normalize : Value → ResourceData Row)
    (kind : Kind) (keys : List Text) where
  abbrev IsOld : ℕ → List Request → Type 0
  IsOld v rs = All (λ r. r.version < v) rs

  IsOld-suc : (v : ℕ) (rs : List Request) → IsEarlier v rs → IsOld (suc v) rs
  IsOld-suc v [] h = tt
  IsOld-suc v (r ∷ rs) (a, h) = (ground arith, IsOld-suc v rs h)

  -- A reply that is too late changes nothing but the list of requests.
  reply-IsOld :
      (n : ℕ) (outcome : Outcome) (elapsed : ℕ) (p : Page Row)
      → IsOld p.state.request_version p.in_flight
      → let q = reply convert normalize kind keys n outcome elapsed p in
        (q.state ≡ p.state) × IsOld p.state.request_version q.in_flight
  unfolding reply
  reply-IsOld n outcome elapsed p o = elim (Option-cases (pick n p.in_flight)) [
    | inl e ↦ rw (e, reply) (refl, o)
    | inr ((r, rest), e) ↦
        let (a, k) = All-pick (λ q. q.version < p.state.request_version) n p.in_flight e o in
        rw (e, reply) (ground (arith, nat_eq_iff r.version p.state.request_version), k)
  ]

  -- replies to requests, by their places, their outcomes and their times
  abbrev pub replies_of : List (ℕ × (Outcome × ℕ)) → List Event
  replies_of [] = []
  replies_of ((n, (outcome, elapsed)) ∷ rs) = replies n outcome elapsed ∷ replies_of rs

  run-IsOld :
      (p : Page Row) (rs : List (ℕ × (Outcome × ℕ)))
      → IsOld p.state.request_version p.in_flight
      → (run convert normalize kind keys p (replies_of rs)).state ≡ p.state
  unfolding run step
  run-IsOld p [] o = refl
  run-IsOld p ((n, (outcome, elapsed)) ∷ rs) o =
      let (s, k) = reply-IsOld n outcome elapsed p o in
      let q : Page Row = reply convert normalize kind keys n outcome elapsed p in
      run-IsOld q rs
        (subst (λ (t : ResourceState Row). IsOld t.request_version q.in_flight) (sym s) k)
      ∙ s

  -- From a page where no request in flight is later than the current version, where one is current
  -- if the resource loads and none otherwise, and where what loads is not marked as loaded: once
  -- the resource is cleared, the replies to all the requests made before, whatever they bring and in
  -- whatever order they come, leave it as it was cleared.
  pub run-cleared :
      (p : Page Row) (rs : List (ℕ × (Outcome × ℕ)))
      → IsAwaited p
      → (run convert normalize kind keys (clear_metric_resource keys p) (replies_of rs)).state
        ≡ (clear_metric_resource keys p).state
  unfolding clear_metric_resource
  run-cleared p rs (c, (l, e)) =
      run-IsOld (clear_metric_resource keys p) rs (IsOld-suc p.state.request_version p.in_flight e)
