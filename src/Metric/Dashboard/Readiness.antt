-- ===== src/Metric/Dashboard/Readiness.antt =====
-- The dashboard is always loading or loaded.
use centos_info_collect.Base.{
  ℕ, zero, suc, ◌≡◌, refl, ◌⊎◌, inl, inr, Bool, true, false, not, ◌&&◌, ◌||◌, List, [], ◌∷◌, Text,
  codes, elem, ◌==◌, ℕ_eq, list_eq, list_beq_iff, beq_self, if◌then◌else◌, if-elim, arith,
  Bool-cases,
}
use centos_info_collect.Metric.Values.{Number, Value, property, normalize_metric_prometheus_id}
use centos_info_collect.Metric.Fetch.{Outcome, type_error, failure, body}
use centos_info_collect.Metric.Dashboard.Loads.{
  Request, DashboardPage, load_dashboard, change_dashboard_prometheus, first_id, settle, reply,
  Event, loads, changes, replies, step, run,
}

-- Either the dashboard is loading, for the connection that is chosen, or it is loaded.
abbrev pub IsReady : DashboardPage → Type 0
IsReady p =
    ((p.loading ≡ false) × ((p.loaded ≡ true) × (p.in_flight ≡ [])))
    ⊎ ((p.loading ≡ true)
        × (p.in_flight ≡ record { version = p.request_version; source = p.selected } ∷ []))

-- The server answers for the connection that it was asked for.
abbrev pub IsEcho : (Value → Number) → Text → Outcome → Type 0
IsEcho convert source type_error = Unit
IsEcho convert source (failure message) = Unit
IsEcho convert source (body b) =
    normalize_metric_prometheus_id convert (property (codes "prometheus_id") b) ≡ source

-- The connection is changed only while nothing loads, which its disabled button sees to.
unfoldable pub IsCalm : (Value → Number) → DashboardPage → Event → Type 0
IsCalm convert p (loads force) = Unit
IsCalm convert p (changes v) = p.loading ≡ false
IsCalm convert p (replies n outcome) = IsEcho convert p.selected outcome

-- Nothing loads.
abbrev IsIdle : DashboardPage → Type 0
IsIdle p = (p.loading ≡ false) × (p.in_flight ≡ [])

ready-IsIdle : (p : DashboardPage) → IsReady p → p.loading ≡ false → IsIdle p
ready-IsIdle p (inl (l, (d, f))) h = (l, f)
ready-IsIdle p (inr (l, f)) h = cc

-- A load of a page that is idle makes it ready, unless it is loaded and need not load again.
load-IsReady :
    (force : Bool) (p : DashboardPage)
    → IsIdle p
    → (not force && p.loaded) ≡ false
    → IsReady (load_dashboard force p)
unfolding load_dashboard
load-IsReady force p (l, f) needed =
    if-elim IsReady (p.loading || (not force && p.loaded)) (λ y. ground (arith, y))
      (λ n.
        if-elim IsReady (not (elem p.selected p.prometheus_ids) || not p.has_url)
          (λ y. inl (l, (refl, f))) (λ k. inr (refl, rw f refl)))

loads-IsReady : (force : Bool) (p : DashboardPage) → IsReady p → IsReady (load_dashboard force p)
unfolding load_dashboard
loads-IsReady force p r = elim (Bool-cases (p.loading || (not force && p.loaded))) [
  | inl y ↦ rw (y, load_dashboard) r
  | inr n ↦ load-IsReady force p (ready-IsIdle p r (ground (arith, n))) (ground (arith, n))
]

change-IsReady :
    (convert : Value → Number) (v : Value) (p : DashboardPage)
    → IsReady p
    → p.loading ≡ false
    → IsReady (change_dashboard_prometheus convert v p)
unfolding change_dashboard_prometheus
change-IsReady convert v p r l =
    let id = normalize_metric_prometheus_id convert v in
    load-IsReady true
      (record p {
        selected = if elem id p.prometheus_ids then id else first_id p.prometheus_ids;
        loaded = false;
        error = false;
        hosts = [];
        selected_nodes = [];
      })
      (ready-IsIdle p r l) refl

settle-loaded :
    (convert : Value → Number) (r : Request) (outcome : Outcome) (p : DashboardPage)
    → p.selected ≡ r.source
    → IsEcho convert r.source outcome
    → (settle convert r outcome p).loaded ≡ true
settle-loaded convert r type_error p e h = refl
settle-loaded convert r (failure message) p e h = refl
settle-loaded convert r (body b) p e h =
    let id = normalize_metric_prometheus_id convert (property (codes "prometheus_id") b) in
    if-elim (λ (q : DashboardPage). q.loaded ≡ true)
      (not (p.selected == r.source) || not (id == r.source))
      (λ y. ground (arith, y, e, h, list_beq_iff p.selected r.source, list_beq_iff id r.source))
      (λ n. refl)

settle-in_flight :
    (convert : Value → Number) (r : Request) (outcome : Outcome) (p : DashboardPage)
    → (settle convert r outcome p).in_flight ≡ p.in_flight
settle-in_flight convert r type_error p = refl
settle-in_flight convert r (failure message) p = refl
settle-in_flight convert r (body b) p =
    if-elim (λ (q : DashboardPage). q.in_flight ≡ p.in_flight)
      (not (p.selected == r.source)
        || not (
            normalize_metric_prometheus_id convert (property (codes "prometheus_id") b)
            == r.source))
      (λ y. refl) (λ n. refl)

reply-IsReady :
    (convert : Value → Number) (n : ℕ) (outcome : Outcome) (p : DashboardPage)
    → IsReady p
    → IsEcho convert p.selected outcome
    → IsReady (reply convert n outcome p)
unfolding reply
reply-IsReady convert n outcome p (inl (l, (d, f))) h = rw (f, reply) (inl (l, (d, f)))
reply-IsReady convert zero outcome p (inr (l, f)) h =
    let r : Request = record { version = p.request_version; source = p.selected } in
    let q : DashboardPage = record p { in_flight = [] } in
    rw (f, reply, beq_self)
      (inl (refl, (settle-loaded convert r outcome q refl h, settle-in_flight convert r outcome q)))
reply-IsReady convert (suc n) outcome p (inr (l, f)) h = rw (f, reply) (inr (l, f))

step-IsReady :
    (convert : Value → Number) (p : DashboardPage) (e : Event)
    → IsReady p
    → IsCalm convert p e
    → IsReady (step convert p e)
unfolding step IsCalm
step-IsReady convert p (loads force) r c = loads-IsReady force p r
step-IsReady convert p (changes v) r c = change-IsReady convert v p r c
step-IsReady convert p (replies n outcome) r c = reply-IsReady convert n outcome p r c

unfoldable pub IsCalmRun : (Value → Number) → DashboardPage → List Event → Type 0
unfolding IsCalm
IsCalmRun convert p [] = Unit
IsCalmRun convert p (e ∷ es) = IsCalm convert p e × IsCalmRun convert (step convert p e) es

run-IsReady :
    (convert : Value → Number) (p : DashboardPage) (es : List Event)
    → IsReady p
    → IsCalmRun convert p es
    → IsReady (run convert p es)
unfolding run IsCalmRun
run-IsReady convert p [] r c = r
run-IsReady convert p (e ∷ es) r c =
    run-IsReady convert (step convert p e) es (step-IsReady convert p e r c.0) c.1

-- When an idle page makes its first load, and from then on the connection is changed only while
-- nothing loads and the server answers each request for the connection it asked for, then after any
-- loads, changes and replies the dashboard is loaded, with no request in flight, or it is loading
-- and awaits one request of the current version for the connection that is chosen.
pub mounted-IsReady :
    (convert : Value → Number) (p : DashboardPage) (es : List Event)
    → p.loading ≡ false
    → p.in_flight ≡ []
    → IsCalmRun convert (load_dashboard true p) es
    → IsReady (run convert (load_dashboard true p) es)
mounted-IsReady convert p es l f c =
    run-IsReady convert (load_dashboard true p) es (load-IsReady true p (l, f) refl) c
