-- ===== src/Metric/Names.antt =====
-- The search for the names of metrics in static/js/ops-vue-pages.js: `updateMetricQuerySuggestions`
-- with its timer, `searchMetricNames` with its cache, and the reset by `changeMetricPrometheus`, for
-- one panel.
use centos_info_collect.Base.{
  ℕ, zero, suc, Bool, true, false, not, ◌&&◌, ◌||◌, Option, none, some, List, [], ◌∷◌, ◌++◌, Text,
  codes, null, all, elem, pick, take, length, select, map, get, insert, ltb, leb, ◌==◌, ℕ_eq,
  list_eq, if◌then◌else◌,
}
use centos_info_collect.Metric.Values.{
  Number, natural, negative, fraction, infinite, nan, Value, string, undefined, property, truthy,
  array_or_empty, is_finite, is_record, to_number,
}
use centos_info_collect.Metric.Texts.{safe_metric_resource_text}
use centos_info_collect.Metric.Fetch.{Outcome, type_error, failure, body}
use centos_info_collect.Metric.Panels.Queries.{Sources, metric_response_source_is_current}
use centos_info_collect.Metric.Dashboard.{unique_after}
pub mod Searching
pub mod Awaited
pub mod Tests

-- What a search has found: `result` of the code.
pub record Found : Type 0 where
  pub metrics : List Text
  pub total : Number
  pub truncated : Bool

-- A call of `searchMetricNames`, that a timer is to make or that awaits its reply.
pub record Lookup : Type 0 where
  pub source : Text
  pub keyword : Text
  pub version : ℕ

-- `metrics` are those that `applyMetricQuerySuggestions` was last given. `timer` is the call that
-- the pending timer is to make.
pub record Search : Type 0 where
  pub sources : List Text
  pub selected : Text
  pub version : ℕ
  pub keyword : Text
  pub loading : Bool
  pub error : Text
  pub total : Number
  pub shown : ℕ
  pub truncated : Bool
  pub metrics : List Text
  pub cache : List (Text × Found)
  pub timer : List Lookup
  pub in_flight : List Lookup

abbrev pub new : List Text → Text → Search
new sources selected = record {
  sources = sources;
  selected = selected;
  version = 0;
  keyword = [];
  loading = false;
  error = [];
  total = natural 0;
  shown = 0;
  truncated = false;
  metrics = [];
  cache = [];
  timer = [];
  in_flight = [];
}

-- `metricSearchCacheKey`, for a keyword in lower case
abbrev pub metric_search_cache_key : Text → Text → Text
metric_search_cache_key source keyword = source ++ (codes ":" ++ keyword)

-- the resets that a new keyword and a new source have in common
abbrev pub restart : Text → Search → Search
restart keyword p = record p {
  version = suc p.version;
  keyword = keyword;
  loading = false;
  error = [];
  total = natural 0;
  shown = 0;
  truncated = false;
  metrics = [];
  timer = [];
}

-- `number > n`, given that comparison for a number with a fraction
abbrev pub exceeds : (Bool → ℕ → ℕ → Bool) → Number → ℕ → Bool
exceeds fraction_exceeds (natural m) n = ltb n m
exceeds fraction_exceeds (negative m) n = false
exceeds fraction_exceeds (fraction sign bits) n = fraction_exceeds sign bits n
exceeds fraction_exceeds (infinite sign) n = not sign
exceeds fraction_exceeds nan n = false

abbrev pub is_natural : Number → ℕ → Bool
is_natural (natural m) n = m == n
is_natural v n = false

abbrev pub cached : Text → Text → Search → Option Found
cached source keyword p = get (metric_search_cache_key source keyword) p.cache

-- the continuation of `loadMetricMetadata` in it, with the token and the source that it has kept
unfoldable pub after_metadata : Text → Text → Search → Search
after_metadata token source p =
    if p.keyword == token && p.selected == source
    then record p {
      metrics =
          if null token
          then []
          else elim (cached source token p) [ none ↦ [] | some f ↦ f.metrics ];
    }
    else p

-- The test of the version, the source and the keyword, which stands in three places.
abbrev pub is_current : Lookup → Search → Bool
is_current l p = p.version == l.version && p.selected == l.source && p.keyword == l.keyword

abbrev pub finish_failed : Lookup → Text → Search → Search
finish_failed l m p =
    if is_current l p then record p { error = m; metrics = []; loading = false } else p

-- the `finally` of a search that has returned before
abbrev pub finish_nothing : Lookup → Search → Search
finish_nothing l p = if is_current l p then record p { metrics = []; loading = false } else p

module _ (fraction_exceeds : Bool → ℕ → ℕ → Bool) where
  abbrev pub show_found : Found → Search → Search
  show_found f p = record p {
    total = f.total;
    shown = length f.metrics;
    truncated = f.truncated || exceeds fraction_exceeds f.total (length f.metrics);
    metrics = f.metrics;
  }

  abbrev pub show_cached : Option Found → Search → Search
  show_cached (some f) p = show_found f p
  show_cached none p = record p {
    loading = true;
    metrics = [];
    timer = record { source = p.selected; keyword = p.keyword; version = p.version } ∷ [];
  }

  -- `updateMetricQuerySuggestions`, for a panel that does not run its query
  unfoldable pub update_metric_query_suggestions : Text → Search → Search
  update_metric_query_suggestions token p =
      let q = restart token p in
      if null token || null p.selected then q else show_cached (cached p.selected token q) q

  -- what a search that has found something does for the panel, and its `finally`
  abbrev pub finish_found : Lookup → Found → Search → Search
  finish_found l f p = if is_current l p then record (show_found f p) { loading = false } else p

-- the character class of a name, in its first place and in the others
abbrev pub is_name_start : ℕ → Bool
is_name_start c = (leb 97 c && leb c 122) || (leb 65 c && leb c 90) || c == 95 || c == 58

abbrev pub is_name_part : ℕ → Bool
is_name_part c = is_name_start c || (leb 48 c && leb c 57)

abbrev pub is_metric_name : Text → Bool
is_metric_name [] = false
is_metric_name (c ∷ s) = is_name_start c && all is_name_part s

abbrev pub names_of : List Value → List Text
names_of [] = []
names_of (string s ∷ vs) = let rest = names_of vs in if is_metric_name s then s ∷ rest else rest
names_of (v ∷ vs) = names_of vs

-- `a || b`
abbrev pub or_value : Value → Value → Value
or_value a b = if truthy a then a else b

abbrev pub is_undefined : Value → Bool
is_undefined undefined = true
is_undefined v = false

abbrev pub sources_of : Search → Sources
sources_of p = record {
  prometheus_configured = true;
  prometheus_ids = p.sources;
  selected = p.selected;
}

abbrev pub keep_found : Lookup → Found → Search → Search
keep_found l f p = record p {
  cache = insert (metric_search_cache_key l.source l.keyword) f p.cache;
}

abbrev pub message_of : Text → Text
message_of m =
    let text = safe_metric_resource_text (string m) 200 in
    if null text then codes "指标搜索失败" else text

-- `changeMetricPrometheus`, for the source that is chosen, if it is on offer
unfoldable pub change_metric_prometheus : Text → Search → Search
change_metric_prometheus source p =
    let q = restart [] (record p { selected = if elem source p.sources then source else [] }) in
    record q { cache = [] }

pub data Event : Type 0 where
  types : Text → Event
  fires : Event
  learns : Text → Text → Event
  changes : Text → Event
  replies : ℕ → Outcome → Event

module _ (fraction_exceeds : Bool → ℕ → ℕ → Bool) (convert : Value → Number) where
  -- the total that is shown for so many names
  abbrev pub total_of : Value → ℕ → Number
  total_of v n =
      let total = to_number convert v in
      if is_finite total && (is_natural total n || exceeds fraction_exceeds total n)
      then total
      else natural n

  -- `result`, from the body of a reply
  abbrev pub found_in : Value → Found
  unfolding unique_after
  found_in b =
      let metadata = property (codes "metadata") b in
      let named : Value = or_value (property (codes "metrics") b) (
        or_value (property (codes "metric_names") b) (
          or_value (property (codes "metrics") metadata)
            (property (codes "metric_names") metadata))) in
      let metrics = take 50 (unique_after [] (names_of (array_or_empty named))) in
      let total = property (codes "metric_total") b in
      let truncated = property (codes "metric_truncated") b in
      record {
        metrics = metrics;
        total =
            total_of
              (if is_undefined total then property (codes "metric_total") metadata else total)
              (length metrics);
        truncated = truthy (
            if is_undefined truncated
            then property (codes "metric_truncated") metadata
            else truncated);
      }

  -- `searchMetricNames` from its reply on
  abbrev pub settle : Lookup → Outcome → Search → Search
  settle l type_error p = finish_failed l (codes "无法搜索当前 Prometheus 的指标") p
  settle l (failure m) p = finish_failed l (message_of m) p
  settle l (body b) p =
      if metric_response_source_is_current convert (sources_of p) l.source b
      then finish_found fraction_exceeds l (found_in b) (keep_found l (found_in b) p)
      else finish_nothing l p

  unfoldable pub reply : ℕ → Outcome → Search → Search
  unfolding found_in
  reply n outcome p = elim (pick n p.in_flight) [
    | none ↦ p
    | some (l, rest) ↦ settle l outcome (record p { in_flight = rest })
  ]

  -- `searchMetricNames` up to its request, which it does not make for what the cache has
  abbrev pub search_for : Lookup → Option Found → Search → Search
  search_for l (some f) p = finish_found fraction_exceeds l f p
  search_for l none p = record p { in_flight = p.in_flight ++ l ∷ [] }

  unfoldable pub search_metric_names : Lookup → Search → Search
  search_metric_names l p = search_for l (cached l.source l.keyword p) p

  -- The timer of 200 ms fires.
  abbrev pub fire : List Lookup → Search → Search
  unfolding search_metric_names
  fire [] p = p
  fire (l ∷ ls) p = search_metric_names l (record p { timer = ls })

  unfoldable pub step : Search → Event → Search
  unfolding update_metric_query_suggestions after_metadata reply fire change_metric_prometheus
  step p (types token) = update_metric_query_suggestions fraction_exceeds token p
  step p fires = fire p.timer p
  step p (learns token source) = after_metadata token source p
  step p (changes source) = change_metric_prometheus source p
  step p (replies n outcome) = reply n outcome p

  unfoldable pub run : Search → List Event → Search
  unfolding step
  run p [] = p
  run p (e ∷ es) = run (step p e) es
