-- ===== src/Metric/Names/Awaited.antt =====
-- Which search for names a panel awaits, over every history.
use centos_info_collect.Base.{
  ℕ, ◌≤◌, ◌≡◌, refl, Bool, true, false, ◌&&◌, ◌||◌, Option, none, some, List, [], ◌∷◌, Text, null,
  pick, All-append, All-pick, tally-snoc, tally-pick, IsUpTo-suc, tally-IsUpTo, ◌==◌, ℕ_eq, list_eq,
  beq_self, if-elim, Option-cases, inl, inr, arith,
}
use centos_info_collect.Metric.Values.{Number, Value}
use centos_info_collect.Metric.Fetch.{Outcome, type_error, failure, body}
use centos_info_collect.Metric.Panels.Queries.{metric_response_source_is_current}
use centos_info_collect.Metric.Names.{
  Found, Lookup, Search, new, restart, show_cached, cached, update_metric_query_suggestions,
  after_metadata, sources_of, keep_found, found_in, settle, reply, search_for, search_metric_names,
  fire, change_metric_prometheus, Event, types, fires, learns, changes, replies, step, run,
}
use centos_info_collect.Metric.Names.Searching.{
  version_of, has_version, matches, IsSearching, Match-later, restart-IsSearching, Before,
  end-IsSearching,
}

module _ (fraction_exceeds : Bool → ℕ → ℕ → Bool) (convert : Value → Number) where
  settle-IsSearching :
      (l : Lookup) (o : Outcome) (p : Search)
      → Before l p
      → IsSearching (settle fraction_exceeds convert l o p)
  settle-IsSearching l type_error p a =
      end-IsSearching l p _ p a (((refl, (refl, refl)), (refl, refl)), refl)
        (((refl, (refl, refl)), (refl, refl)), refl)
  settle-IsSearching l (failure m) p a =
      end-IsSearching l p _ p a (((refl, (refl, refl)), (refl, refl)), refl)
        (((refl, (refl, refl)), (refl, refl)), refl)
  settle-IsSearching l (body b) p a =
      if-elim IsSearching (metric_response_source_is_current convert (sources_of p) l.source b)
        (λ y.
          end-IsSearching l p _ (keep_found l (found_in fraction_exceeds convert b) p) a
            (((refl, (refl, refl)), (refl, refl)), refl)
            (((refl, (refl, refl)), (refl, refl)), refl))
        (λ n.
          end-IsSearching l p _ p a (((refl, (refl, refl)), (refl, refl)), refl)
            (((refl, (refl, refl)), (refl, refl)), refl))

  pick-Before :
      (n : ℕ) (p : Search) {l : Lookup} {rest : List Lookup}
      → pick n p.in_flight ≡ some (l, rest)
      → IsSearching p
      → Before l (record p { in_flight = rest })
  pick-Before n p e a = record {
    timer_up_to = a.timer_up_to;
    up_to = All-pick (λ k. k.version ≤ p.version) n p.in_flight e a.up_to;
    timer_match = a.timer_match;
    match = All-pick (λ k. matches p.selected p.keyword p.version k ≡ true) n p.in_flight e a.match;
    awaited = ground (arith, tally-pick (has_version p.version) n p.in_flight e, a.awaited);
  }

  reply-IsSearching :
      (n : ℕ) (o : Outcome) (p : Search)
      → IsSearching p
      → IsSearching (reply fraction_exceeds convert n o p)
  unfolding reply
  reply-IsSearching n o p a = elim (Option-cases (pick n p.in_flight)) [
    | inl e ↦ rw (e, reply) a
    | inr ((l, rest), e) ↦
        rw (e, reply) (settle-IsSearching l o (record p { in_flight = rest }) (pick-Before n p e a))
  ]

  -- the call that the timer makes, as the first of those in flight
  search_for-IsSearching :
      (l : Lookup) (o : Option Found) (p : Search)
      → Before l p
      → IsSearching (search_for fraction_exceeds convert l o p)
  search_for-IsSearching l (some f) p a =
      end-IsSearching l p _ p a (((refl, (refl, refl)), (refl, refl)), refl)
        (((refl, (refl, refl)), (refl, refl)), refl)
  search_for-IsSearching l none p a = record {
    timer_up_to = a.timer_up_to;
    up_to = All-append (λ k. k.version ≤ p.version) p.in_flight (l ∷ []) a.up_to.1 (a.up_to.0, tt);
    timer_match = a.timer_match;
    match =
        All-append (λ k. matches p.selected p.keyword p.version k ≡ true) p.in_flight (l ∷ [])
          a.match.1 (a.match.0, tt);
    awaited = ground (arith, tally-snoc (has_version p.version) p.in_flight l, a.awaited);
  }

  fire-IsSearching :
      (ls : List Lookup) (p : Search)
      → p.timer ≡ ls
      → IsSearching p
      → IsSearching (fire fraction_exceeds convert ls p)
  unfolding fire search_metric_names
  fire-IsSearching [] p e a = a
  fire-IsSearching (l ∷ ls) p e a =
      let u = rw e at a.timer_up_to in
      let m = rw e at a.timer_match in
      search_for-IsSearching l (cached l.source l.keyword p) (record p { timer = ls })
        (record {
          timer_up_to = u.1;
          up_to = (u.0, a.up_to);
          timer_match = m.1;
          match = (m.0, a.match);
          awaited = ground (arith, rw e at a.awaited);
        })

  show_cached-IsSearching :
      (o : Option Found) (p : Search)
      → p.timer ≡ []
      → p.loading ≡ false
      → IsSearching p
      → IsSearching (show_cached fraction_exceeds o p)
  show_cached-IsSearching (some f) p t i a = record {
    timer_up_to = a.timer_up_to;
    up_to = a.up_to;
    timer_match = a.timer_match;
    match = a.match;
    awaited = a.awaited;
  }
  show_cached-IsSearching none p t i a =
      let version = beq_self p.version in
      let source = beq_self p.selected in
      let keyword = beq_self p.keyword in
      record {
        timer_up_to = (omega arith, tt);
        up_to = a.up_to;
        timer_match = (ground (arith, source, keyword), tt);
        match = a.match;
        awaited = ground (arith, version, rw t at a.awaited, i);
      }

  update-IsSearching :
      (token : Text) (p : Search)
      → IsSearching p
      → IsSearching (update_metric_query_suggestions fraction_exceeds token p)
  unfolding update_metric_query_suggestions
  update-IsSearching token p a =
      let b = restart-IsSearching token p a in
      let q : Search = restart token p in
      if-elim IsSearching (null token || null p.selected) (λ y. b)
        (λ n. show_cached-IsSearching (cached p.selected token q) q refl refl b)

  after_metadata-IsSearching :
      (token source : Text) (p : Search)
      → IsSearching p
      → IsSearching (after_metadata token source p)
  unfolding after_metadata
  after_metadata-IsSearching token source p a =
      if-elim IsSearching (p.keyword == token && p.selected == source)
        (λ y. record {
          timer_up_to = a.timer_up_to;
          up_to = a.up_to;
          timer_match = a.timer_match;
          match = a.match;
          awaited = a.awaited;
        })
        (λ n. a)

  -- A new source makes all the calls old, so that it does not matter that they are for another.
  change-IsSearching :
      (source : Text) (p : Search) → IsSearching p → IsSearching (change_metric_prometheus source p)
  unfolding change_metric_prometheus
  change-IsSearching source p a =
      let q : Search = change_metric_prometheus source p in
      record {
        timer_up_to = tt;
        up_to = IsUpTo-suc version_of p.version p.in_flight a.up_to;
        timer_match = tt;
        match = Match-later q p.version p.in_flight a.up_to refl;
        awaited = ground (arith, tally-IsUpTo version_of p.version p.in_flight a.up_to);
      }

  step-IsSearching :
      (p : Search) (e : Event) → IsSearching p → IsSearching (step fraction_exceeds convert p e)
  unfolding step
  step-IsSearching p (types token) a = update-IsSearching token p a
  step-IsSearching p fires a = fire-IsSearching p.timer p refl a
  step-IsSearching p (learns token source) a = after_metadata-IsSearching token source p a
  step-IsSearching p (changes source) a = change-IsSearching source p a
  step-IsSearching p (replies n o) a = reply-IsSearching n o p a

  run-IsSearching :
      (p : Search) (es : List Event)
      → IsSearching p
      → IsSearching (run fraction_exceeds convert p es)
  unfolding run
  run-IsSearching p [] a = a
  run-IsSearching p (e ∷ es) a =
      run-IsSearching (step fraction_exceeds convert p e) es (step-IsSearching p e a)

  -- From a new panel on, after any history of typing, timers, replies in any order and changes of
  -- the source, the panel loads exactly while its timer is pending or a reply is to come for the
  -- keyword and the source that it shows now, and then for one call only: no search is left loading
  -- for ever, and none that is out of date keeps the panel loading or ends its loading.
  pub run-new-IsSearching :
      (sources : List Text) (selected : Text) (es : List Event)
      → IsSearching (run fraction_exceeds convert (new sources selected) es)
  run-new-IsSearching sources selected es =
      run-IsSearching (new sources selected) es
        (record { timer_up_to = tt; up_to = tt; timer_match = tt; match = tt; awaited = refl })
