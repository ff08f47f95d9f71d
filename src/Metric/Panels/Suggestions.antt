-- ===== src/Metric/Panels/Suggestions.antt =====
-- The suggestions under a query in static/js/ops-vue-pages.js: `metricSuggestionCatalog`,
-- `applyMetricQuerySuggestions`, `hideMetricQuerySuggestions`, `selectMetricQuerySuggestion` and
-- `handleMetricQueryKeydown`.
use centos_info_collect.Base.{
  ℕ, ◌+◌, ◌-◌, ◌<◌, ◌%◌, Bool, true, false, not, ◌&&◌, ◌||◌, ◌≡◌, refl, Option, none, some, List,
  [], ◌∷◌, ◌++◌, Text, codes, null, length, take, drop, select, map, get_elem?, includes, ltb,
  if◌then◌else◌, if-elim, arith,
}
use centos_info_collect.Metric.Panels.{
  SuggestionKind, metric, label, promql_function, Suggestion, Panel, reset_metric_query_result,
}

-- `promqlFunctionNames`
abbrev function_names : List Text
function_names = map codes (
    "abs" ∷ "absent" ∷ "avg" ∷ "ceil" ∷ "changes" ∷ "clamp" ∷ "clamp_max" ∷ "clamp_min" ∷ "count"
    ∷ "delta" ∷ "deriv" ∷ "floor" ∷ "histogram_quantile" ∷ "holt_winters" ∷ "idelta" ∷ "increase"
    ∷ "irate" ∷ "label_join" ∷ "label_replace" ∷ "max" ∷ "min" ∷ "predict_linear" ∷ "quantile"
    ∷ "rate" ∷ "resets" ∷ "round" ∷ "scalar" ∷ "sort" ∷ "sort_desc" ∷ "sum" ∷ "time" ∷ "vector"
    ∷ [])

abbrev suggest : SuggestionKind → Text → Suggestion
suggest kind query = record { kind = kind; query = query }

-- `lower` is the method `toLowerCase`, and `labels` are those of the metadata.
unfoldable pub metric_suggestion_catalog :
    (Text → Text) → List Text → List Text → Text → List Suggestion
metric_suggestion_catalog lower labels metrics token =
    let matches : Suggestion → Bool =
      λ item. null token || includes (lower token) (lower item.query) in
    take 50 (map (suggest metric) metrics)
    ++ select matches (map (suggest label) labels ++ map (suggest promql_function) function_names)

abbrev apply_metric_query_suggestions : List Suggestion → Panel → Panel
apply_metric_query_suggestions suggestions p = record p {
  suggestions = suggestions;
  suggestions_visible =
      not (null suggestions) || p.metric_suggestion_loading || not (null p.metric_suggestion_error);
  suggestion_index = if null suggestions then none else some 0;
}

-- the timer of `hideMetricQuerySuggestions`, and the branch of Escape
abbrev hide_metric_query_suggestions : Panel → Panel
hide_metric_query_suggestions p = record p { suggestions_visible = false; suggestion_index = none }

-- What the input of the query has when it is read: its value and where the token starts and ends.
pub record Input : Type 0 where
  pub value : Text
  pub start : ℕ
  pub end : ℕ

-- `suggestion.query + (functionSuggestion ? '()' : '')`
abbrev replacement : Suggestion → Text
replacement s = elim s.kind [
  | promql_function ↦ s.query ++ codes "()"
  | metric ↦ s.query
  | label ↦ s.query
]

unfoldable pub select_metric_query_suggestion : Input → Suggestion → Panel → Panel
select_metric_query_suggestion input s p =
    if p.loading
    then p
    else hide_metric_query_suggestions (
        reset_metric_query_result (record p {
          query = take input.start input.value ++ replacement s ++ drop input.end input.value;
        }))

-- `if (!suggestion || panel.loading) return` for what may be no suggestion
abbrev select_if_any : Input → Option Suggestion → Panel → Panel
select_if_any input none p = p
select_if_any input (some s) p = select_metric_query_suggestion input s p

-- `suggestions[index]`
abbrev at : List Suggestion → Option ℕ → Option Suggestion
at ss none = none
at ss (some i) = get_elem? ss i

-- `(index + direction + length) % length`, where `none` is the index -1: `down` says the direction.
unfoldable pub moved : Bool → ℕ → Option ℕ → ℕ
moved true len none = (len - 0) % len
moved true len (some i) = (i + 1 + len) % len
moved false len none = if ltb len 2 then 0 else (len - 2) % len
moved false len (some i) = (i + len - 1) % len

pub data Key : Type 0 where
  arrow_down : Key
  arrow_up : Key
  enter : Input → Key
  escape : Key
  other : Key

-- `handleMetricQueryKeydown` without Ctrl and Meta
unfoldable pub handle_metric_query_keydown : Key → Panel → Panel
unfolding moved select_metric_query_suggestion
handle_metric_query_keydown key p =
    let len = length p.suggestions in
    let selected : Option Suggestion = at p.suggestions p.suggestion_index in
    if not p.suggestions_visible || null p.suggestions then p else elim key [
      | arrow_down ↦ record p { suggestion_index = some (moved true len p.suggestion_index) }
      | arrow_up ↦ record p { suggestion_index = some (moved false len p.suggestion_index) }
      | enter input ↦ select_if_any input selected p
      | escape ↦ hide_metric_query_suggestions p
      | other ↦ p
    ]

pub data Event : Type 0 where
  suggests : List Suggestion → Event
  presses : Key → Event
  hides : Event

unfoldable pub step : Panel → Event → Panel
unfolding handle_metric_query_keydown
step p (suggests suggestions) = apply_metric_query_suggestions suggestions p
step p (presses key) = handle_metric_query_keydown key p
step p hides = hide_metric_query_suggestions p

unfoldable pub run : Panel → List Event → Panel
unfolding step
run p [] = p
run p (e ∷ es) = run (step p e) es

-- No suggestion is chosen that is not there, and one is chosen whenever some are shown.
abbrev pub IsChosen : Panel → Type 0
IsChosen p = elim p.suggestion_index [
  | none ↦ (p.suggestions_visible && not (null p.suggestions)) ≡ false
  | some i ↦ i < length p.suggestions
]

moved-bound : (down : Bool) (len : ℕ) (o : Option ℕ) → 0 < len → moved down len o < len
unfolding moved
moved-bound true len none h = ground arith
moved-bound true len (some i) h = ground arith
moved-bound false len none h = ground arith
moved-bound false len (some i) h = ground arith

select-IsChosen :
    (input : Input) (s : Suggestion) (p : Panel)
    → IsChosen p
    → IsChosen (select_metric_query_suggestion input s p)
unfolding select_metric_query_suggestion
select-IsChosen input s p h = if-elim IsChosen p.loading (λ y. h) (λ n. refl)

select_if_any-IsChosen :
    (input : Input) (o : Option Suggestion) (p : Panel)
    → IsChosen p
    → IsChosen (select_if_any input o p)
select_if_any-IsChosen input none p h = h
select_if_any-IsChosen input (some s) p h = select-IsChosen input s p h

not_null : (ss : List Suggestion) → null ss ≡ false → 0 < length ss
not_null [] h = cc
not_null (s ∷ ss) h = omega arith

step-IsChosen : (p : Panel) (e : Event) → IsChosen p → IsChosen (step p e)
unfolding step
step-IsChosen p (suggests []) h = ground arith
step-IsChosen p (suggests (s ∷ ss)) h = ground arith
step-IsChosen p (presses arrow_down) h =
    if-elim IsChosen (not p.suggestions_visible || null p.suggestions) (λ y. h)
      (λ n.
        moved-bound true (length p.suggestions) p.suggestion_index
          (not_null p.suggestions (ground (arith, n))))
step-IsChosen p (presses arrow_up) h =
    if-elim IsChosen (not p.suggestions_visible || null p.suggestions) (λ y. h)
      (λ n.
        moved-bound false (length p.suggestions) p.suggestion_index
          (not_null p.suggestions (ground (arith, n))))
step-IsChosen p (presses (enter input)) h =
    if-elim IsChosen (not p.suggestions_visible || null p.suggestions) (λ y. h)
      (λ n. select_if_any-IsChosen input (at p.suggestions p.suggestion_index) p h)
step-IsChosen p (presses escape) h = ground arith
step-IsChosen p (presses other) h = ground arith
step-IsChosen p hides h = refl

-- From a panel where a suggestion is chosen whenever some are shown, and none that is not there,
-- this stays so after any lists of suggestions, any keys and the timer that hides them: the arrow
-- keys wrap around and never leave the list, and Enter finds the suggestion it takes.
pub run-IsChosen : (p : Panel) (es : List Event) → IsChosen p → IsChosen (run p es)
unfolding run
run-IsChosen p [] h = h
run-IsChosen p (e ∷ es) h = run-IsChosen (step p e) es (step-IsChosen p e h)
