-- ===== src/Metric/Resources/Requests.antt =====
-- The requests of a resource: which of them are awaited, and what becomes of the others.
use centos_info_collect.Base.{
  ℕ, zero, suc, ◌+◌, ◌≤◌, ◌≡◌, refl, Bool, true, false, not, ◌&&◌, ◌||◌, some, List, [], ◌∷◌, ◌++◌,
  Text, null, elem, pick, All-pick, All, All-append, ◌==◌, ℕ_eq, nat_eq_iff, beq_self, list_eq,
  if◌then◌else◌, arith, inl, inr, sym, Option-cases, if-elim,
}
use centos_info_collect.Metric.Values.{Number, Value, property, normalize_metric_prometheus_id}
use centos_info_collect.Metric.Fetch.{Outcome, type_error, failure, body}
use centos_info_collect.Metric.Rows.{ResourceData}
use centos_info_collect.Metric.Resources.{
  Kind, Request, ResourceState, Page, refuse, ask, source_key, settle, clear_metric_resource,
  reset_metric_resource_ui, not_configured, not_selected, load_metric_resource, change_source,
  reply, Event, loads, clears, changes, replies, step, run,
}

-- The number of requests in flight that have this version.
abbrev pub count : ℕ → List Request → ℕ
count v [] = 0
count v (r ∷ rs) = let rest = count v rs in if r.version == v then suc rest else rest

-- No request in flight has a later version.
abbrev pub IsEarlier : ℕ → List Request → Type 0
IsEarlier v rs = All (λ r. r.version ≤ v) rs

count-append : (v : ℕ) (rs qs : List Request) → count v (rs ++ qs) ≡ count v rs + count v qs
count-append v [] qs = ground arith
count-append v (r ∷ rs) qs = ground (arith, count-append v rs qs)

IsEarlier-suc : (v : ℕ) (rs : List Request) → IsEarlier v rs → IsEarlier (suc v) rs
IsEarlier-suc v [] h = tt
IsEarlier-suc v (r ∷ rs) (a, h) = (ground arith, IsEarlier-suc v rs h)

count-later : (v : ℕ) (rs : List Request) → IsEarlier v rs → count (suc v) rs ≡ 0
count-later v [] h = refl
count-later v (r ∷ rs) (a, h) = ground (arith, count-later v rs, nat_eq_iff r.version (suc v))

count-pick :
    (v n : ℕ) (rs : List Request) {r : Request} {rest : List Request}
    → pick n rs ≡ some (r, rest)
    → count v rs ≡ count v (r ∷ rest)
count-pick v n [] h = cc
count-pick v zero (x ∷ rs) h = ground arith
count-pick v (suc n) (x ∷ rs) {r} {rest} h = elim (Option-cases (pick n rs)) [
  | inl gone ↦ cc (rw gone at h)
  | inr ((y, ys), found) ↦
      let same : y ≡ r = ground (arith, rw found at h) in
      let left : x ∷ ys ≡ rest = ground (arith, rw found at h) in
      rw (sym same, sym left) (ground (arith, count-pick v n rs found))
]

module _ {Row : Type 0} where
  -- While the resource is loading it is not loaded and one request in flight is current, and
  -- otherwise none is; no request is later than the current version.
  abbrev pub IsAwaited : Page Row → Type 0
  IsAwaited p =
      (count p.state.request_version p.in_flight ≡ (if p.state.loading then 1 else 0))
      × (((p.state.loading && p.state.loaded) ≡ false)
          × IsEarlier p.state.request_version p.in_flight)

  clear-IsAwaited :
      (keys : List Text) (p : Page Row) → IsAwaited p → IsAwaited (clear_metric_resource keys p)
  unfolding clear_metric_resource
  clear-IsAwaited keys p (c, (l, e)) =
      let v = p.state.request_version in
      (count-later v p.in_flight e, (refl, IsEarlier-suc v p.in_flight e))

  ask-IsAwaited : (keys : List Text) (p : Page Row) → IsAwaited p → IsAwaited (ask keys p)
  ask-IsAwaited keys p (c, (l, e)) =
      let v = p.state.request_version in
      let r : Request = record { version = suc v; source = p.selected } in
      (
        ground (
          arith,
          count-append (suc v) p.in_flight (r ∷ []),
          count-later v p.in_flight,
          beq_self (suc v),
        ),
        (
          refl,
          All-append (λ q. q.version ≤ suc v) p.in_flight (r ∷ []) (IsEarlier-suc v p.in_flight e)
              (omega arith, tt),
        ),
      )

  refuse-IsAwaited :
      (keys : List Text) (m : Text) (p : Page Row)
      → p.state.loading ≡ false
      → IsAwaited p
      → IsAwaited (refuse keys m p)
  refuse-IsAwaited keys m p i (c, (l, e)) = (c, (ground arith, e))

  load-IsAwaited :
      (kind : Kind) (keys : List Text) (force : Bool) (p : Page Row)
      → IsAwaited p
      → IsAwaited (load_metric_resource kind keys force p)
  unfolding load_metric_resource
  load-IsAwaited kind keys force p v =
      let q : Page Row = if force then reset_metric_resource_ui p else p in
      let w : IsAwaited q × (q.state.loading ≡ p.state.loading) =
        if-elim (λ k. IsAwaited k × (k.state.loading ≡ p.state.loading)) force (λ y. (v, refl))
          (λ n. (v, refl)) in
      if-elim IsAwaited (p.state.loading || (p.state.loaded && not force)) (λ y. v)
        (λ n.
          let idle : q.state.loading ≡ false = ground (arith, w.1) in
          if-elim IsAwaited (not p.configured || null p.sources)
            (λ y. refuse-IsAwaited keys (not_configured kind) q idle w.0)
            (λ a.
              if-elim IsAwaited (not (elem p.selected p.sources))
                (λ y. refuse-IsAwaited keys (not_selected kind) q idle w.0)
                (λ b. ask-IsAwaited keys q w.0)))

module _ {Row : Type 0} (convert : Value → Number) (normalize : Value → ResourceData Row)
    (kind : Kind) (keys : List Text) where
  change-IsAwaited :
      (v : Value) (showing : Bool) (p : Page Row)
      → IsAwaited p
      → IsAwaited (change_source convert normalize kind keys v showing p)
  unfolding change_source
  change-IsAwaited v showing p h =
      let id = normalize_metric_prometheus_id convert v in
      let q : Page Row =
        clear_metric_resource keys (record p { selected = if elem id p.sources then id else [] }) in
      let w : IsAwaited q =
        clear-IsAwaited keys (record p { selected = if elem id p.sources then id else [] }) h in
      if-elim IsAwaited (showing && elem q.selected q.sources)
        (λ y. load-IsAwaited kind keys true q w) (λ n. w)

  -- The request that is settled is no longer awaited.
  settle_lem :
      (selected : Text) (r : Request) (outcome : Outcome) (elapsed : ℕ) (s : ResourceState Row)
      → let t = settle convert normalize kind keys selected r outcome elapsed s in
        (t.loading ≡ false) × (t.request_version ≡ s.request_version)
  settle_lem selected r type_error elapsed s = (refl, refl)
  settle_lem selected r (failure message) elapsed s = (refl, refl)
  settle_lem selected r (body b) elapsed s =
      if-elim
        (λ (t : ResourceState Row). (t.loading ≡ false) × (t.request_version ≡ s.request_version))
        (not (normalize_metric_prometheus_id convert (property (source_key kind) b) == r.source)
          || not (selected == r.source))
        (λ y. (refl, refl)) (λ n. (refl, refl))

  -- the page without the request that is settled
  abbrev settled : Request → List Request → Outcome → ℕ → Page Row → Page Row
  settled r rest outcome elapsed p = record p {
    state =
        if r.version == p.state.request_version
        then settle convert normalize kind keys p.selected r outcome elapsed p.state
        else p.state;
    in_flight = rest;
  }

  settled-IsAwaited :
      (r : Request) (rest : List Request) (outcome : Outcome) (elapsed : ℕ) (p : Page Row)
      → count p.state.request_version (r ∷ rest) ≡ (if p.state.loading then 1 else 0)
      → (p.state.loading && p.state.loaded) ≡ false
      → (r.version ≤ p.state.request_version) × IsEarlier p.state.request_version rest
      → IsAwaited (settled r rest outcome elapsed p)
  settled-IsAwaited r rest outcome elapsed p c l (b, e) =
      let v = p.state.request_version in
      let t = settle convert normalize kind keys p.selected r outcome elapsed p.state in
      let (idle, same) = settle_lem p.selected r outcome elapsed p.state in
      if-elim (λ (s : ResourceState Row). IsAwaited (record p { state = s; in_flight = rest }))
        (r.version == v)
        (λ y. (ground (arith, idle, same, c, y), (ground (arith, idle), rw same e)))
        (λ n. (ground (arith, c, n), (l, e)))

  reply-IsAwaited :
      (n : ℕ) (outcome : Outcome) (elapsed : ℕ) (p : Page Row)
      → IsAwaited p
      → IsAwaited (reply convert normalize kind keys n outcome elapsed p)
  unfolding reply
  reply-IsAwaited n outcome elapsed p h = elim (Option-cases (pick n p.in_flight)) [
    | inl e ↦ rw (e, reply) h
    | inr ((r, rest), e) ↦
        rw (e, reply)
          (settled-IsAwaited r rest outcome elapsed p
            (rw (sym (count-pick p.state.request_version n p.in_flight e)) h.0) h.1.0
            (All-pick (λ q. q.version ≤ p.state.request_version) n p.in_flight e h.1.1))
  ]

  step-IsAwaited :
      (p : Page Row) (e : Event) → IsAwaited p → IsAwaited (step convert normalize kind keys p e)
  unfolding step
  step-IsAwaited p (loads force) h = load-IsAwaited kind keys force p h
  step-IsAwaited p clears h = clear-IsAwaited keys p h
  step-IsAwaited p (changes v showing) h = change-IsAwaited v showing p h
  step-IsAwaited p (replies n outcome elapsed) h = reply-IsAwaited n outcome elapsed p h

  -- If a resource that loads awaits one request of the current version and one that does not load
  -- awaits none, and no request is later, then so it is after any loads, clears, changes of the
  -- source and replies in any order: a resource that loads is never left without a reply to come,
  -- it never loads twice at a time, and what is loading is not marked as loaded.
  pub run-IsAwaited :
      (p : Page Row) (es : List Event)
      → IsAwaited p
      → IsAwaited (run convert normalize kind keys p es)
  unfolding run
  run-IsAwaited p [] h = h
  run-IsAwaited p (e ∷ es) h =
      run-IsAwaited (step convert normalize kind keys p e) es (step-IsAwaited p e h)
