-- ===== src/Metric/Panels/Listing.antt =====
-- `addMetricQueryPanel` and `removeMetricQueryPanel` of static/js/ops-vue-pages.js, among the
-- other changes of the list of panels.
use centos_info_collect.Base.{
  ℕ, suc, ◌+◌, ◌≤◌, ◌<◌, Bool, true, false, not, ◌≡◌, refl, List, [], ◌∷◌, ◌++◌, length,
  length-append, length-map, select, map, leb, elem, distinct, distinct-snoc, map-append, All,
  All-append, ◌==◌, ℕ_eq, nat_eq_iff, if◌then◌else◌, if-elim, arith,
}
use centos_info_collect.Metric.Values.{Number, Value, string, null_value}
use centos_info_collect.Metric.Panels.{Panel, metric_query_panel, forget}

pub record QueryPage : Type 0 where
  pub query_panels : List Panel
  pub next_query_panel_id : ℕ

abbrev ids : List Panel → List ℕ
ids ps = map (λ p. p.id) ps

module _ (convert : Value → Number) where
  abbrev pub new : Value → Value → Value → QueryPage
  new query table error = record {
    query_panels = metric_query_panel convert 1 query table error ∷ [];
    next_query_panel_id = 2;
  }

  unfoldable pub add_metric_query_panel : QueryPage → QueryPage
  add_metric_query_panel s = record {
    query_panels =
        s.query_panels
        ++ metric_query_panel convert s.next_query_panel_id (string []) null_value (string []) ∷ [];
    next_query_panel_id = suc s.next_query_panel_id;
  }

unfoldable pub remove_metric_query_panel : ℕ → QueryPage → QueryPage
remove_metric_query_panel id s =
    if leb (length s.query_panels) 1
    then s
    else record s { query_panels = select (λ p. not (p.id == id)) s.query_panels }

-- the panels when another Prometheus is chosen
unfoldable pub change_metric_prometheus : QueryPage → QueryPage
change_metric_prometheus s = record s { query_panels = map forget s.query_panels }

pub data Event : Type 0 where
  adds : Event
  removes : ℕ → Event
  changes_source : Event

module _ (convert : Value → Number) where
  unfoldable pub step : QueryPage → Event → QueryPage
  unfolding add_metric_query_panel remove_metric_query_panel change_metric_prometheus
  step s adds = add_metric_query_panel convert s
  step s (removes id) = remove_metric_query_panel id s
  step s changes_source = change_metric_prometheus s

  unfoldable pub run : QueryPage → List Event → QueryPage
  unfolding step
  run s [] = s
  run s (e ∷ es) = run (step s e) es

-- There is a panel, the identifiers are distinct, and the next one is larger than all.
abbrev pub IsUnique : QueryPage → Type 0
IsUnique s =
    (1 ≤ length s.query_panels)
    × ((distinct (ids s.query_panels) ≡ true)
        × All (λ p. p.id < s.next_query_panel_id) s.query_panels)

fresh : (n : ℕ) (ps : List Panel) → All (λ p. p.id < n) ps → elem n (ids ps) ≡ false
unfolding elem
fresh n [] h = refl
fresh n (p ∷ ps) (a, h) = ground (arith, fresh n ps h, nat_eq_iff p.id n)

All-suc : (n : ℕ) (ps : List Panel) → All (λ p. p.id < n) ps → All (λ p. p.id < suc n) ps
All-suc n [] h = tt
All-suc n (p ∷ ps) (a, h) = (ground arith, All-suc n ps h)

add-IsUnique :
    (convert : Value → Number) (s : QueryPage)
    → IsUnique s
    → IsUnique (add_metric_query_panel convert s)
unfolding add_metric_query_panel
add-IsUnique convert s (l, (d, b)) =
    let n = s.next_query_panel_id in
    let p : Panel = metric_query_panel convert n (string []) null_value (string []) in
    (
      ground (arith, length-append s.query_panels (p ∷ [])),
      (
        ground (
          arith,
          map-append (λ (q : Panel). q.id) s.query_panels (p ∷ []),
          distinct-snoc n (ids s.query_panels),
          fresh n s.query_panels b,
        ),
        All-append (λ q. q.id < suc n) s.query_panels (p ∷ []) (All-suc n s.query_panels b)
            (omega arith, tt),
      ),
    )

elem-select-ids :
    (n : ℕ) (f : Panel → Bool) (ps : List Panel)
    → elem n (ids ps) ≡ false
    → elem n (ids (select f ps)) ≡ false
unfolding elem
elem-select-ids n f [] h = refl
elem-select-ids n f (p ∷ ps) h = ground (arith, elem-select-ids n f ps)

select-others :
    (id : ℕ) (ps : List Panel)
    → elem id (ids ps) ≡ false
    → length (select (λ (p : Panel). not (p.id == id)) ps) ≡ length ps
unfolding elem
select-others id [] h = refl
select-others id (p ∷ ps) h = ground (arith, select-others id ps)

length-select_one :
    (id : ℕ) (ps : List Panel)
    → distinct (ids ps) ≡ true
    → length ps ≤ length (select (λ (p : Panel). not (p.id == id)) ps) + 1
unfolding distinct
length-select_one id [] h = omega arith
length-select_one id (p ∷ ps) h =
    ground (arith, length-select_one id ps, select-others id ps, nat_eq_iff p.id id)

distinct-select :
    (f : Panel → Bool) (ps : List Panel)
    → distinct (ids ps) ≡ true
    → distinct (ids (select f ps)) ≡ true
unfolding distinct
distinct-select f [] h = refl
distinct-select f (p ∷ ps) h =
    if-elim (λ (qs : List Panel). distinct (ids qs) ≡ true) (f p)
      (λ y. ground (arith, distinct-select f ps, elem-select-ids p.id f ps))
      (λ n. distinct-select f ps (ground arith))

ids-forget : (ps : List Panel) → ids (map forget ps) ≡ ids ps
ids-forget [] = refl
ids-forget (p ∷ ps) = ground (arith, ids-forget ps)

All-filter :
    (n : ℕ) (f : Panel → Bool) (ps : List Panel)
    → All (λ p. p.id < n) ps
    → All (λ p. p.id < n) (select f ps)
All-filter n f [] h = tt
All-filter n f (p ∷ ps) (a, h) =
    if-elim (λ (qs : List Panel). All (λ p. p.id < n) qs) (f p) (λ y. (a, All-filter n f ps h))
      (λ k. All-filter n f ps h)

All-forget :
    (n : ℕ) (ps : List Panel) → All (λ p. p.id < n) ps → All (λ p. p.id < n) (map forget ps)
All-forget n [] h = tt
All-forget n (p ∷ ps) (a, h) = (a, All-forget n ps h)

remove-IsUnique : (id : ℕ) (s : QueryPage) → IsUnique s → IsUnique (remove_metric_query_panel id s)
unfolding remove_metric_query_panel
remove-IsUnique id s (l, (d, b)) =
    let others : Panel → Bool = λ p. not (p.id == id) in
    if-elim IsUnique (leb (length s.query_panels) 1) (λ y. (l, (d, b)))
      (λ n. (
        ground (arith, n, length-select_one id s.query_panels d),
        (
          distinct-select others s.query_panels d,
          All-filter s.next_query_panel_id others s.query_panels b,
        ),
      ))

change-IsUnique : (s : QueryPage) → IsUnique s → IsUnique (change_metric_prometheus s)
unfolding change_metric_prometheus
change-IsUnique s (l, (d, b)) = (
  ground (arith, length-map forget s.query_panels),
  (rw (ids-forget s.query_panels) d, All-forget s.next_query_panel_id s.query_panels b),
)

step-IsUnique :
    (convert : Value → Number) (s : QueryPage) (e : Event)
    → IsUnique s
    → IsUnique (step convert s e)
unfolding step
step-IsUnique convert s adds v = add-IsUnique convert s v
step-IsUnique convert s (removes id) v = remove-IsUnique id s v
step-IsUnique convert s changes_source v = change-IsUnique s v

run-IsUnique :
    (convert : Value → Number) (s : QueryPage) (es : List Event)
    → IsUnique s
    → IsUnique (run convert s es)
unfolding run
run-IsUnique convert s [] v = v
run-IsUnique convert s (e ∷ es) v =
    run-IsUnique convert (step convert s e) es (step-IsUnique convert s e v)

-- From the page as it is made, whatever panels are added and removed and however often another
-- Prometheus is chosen, there is a panel, no two panels have the same identifier, and the next
-- identifier is larger than that of every panel.
pub run-new-IsUnique :
    (convert : Value → Number) (query table error : Value) (es : List Event)
    → IsUnique (run convert (new convert query table error) es)
unfolding distinct elem
run-new-IsUnique convert query table error es =
    run-IsUnique convert (new convert query table error) es (omega arith, (refl, (omega arith, tt)))
