-- ===== src/Metric/Names/Searching.antt =====
-- The calls of the search for names that are of the panel's version.
use centos_info_collect.Base.{
  ℕ, suc, ◌+◌, ◌≡◌, refl, sym, ◌∙◌, Bool, true, false, not, ◌&&◌, ◌||◌, List, [], ◌∷◌, Text, All,
  tally, IsUpTo, IsUpTo-suc, tally-IsUpTo, ◌==◌, ℕ_eq, nat_eq_iff, list_eq, list_beq_iff,
  if◌then◌else◌, if-elim, if_true, if_false, arith,
}
use centos_info_collect.Metric.Names.{Lookup, Search, restart, is_current}

abbrev pub version_of : Lookup → ℕ
version_of l = l.version

abbrev pub has_version : ℕ → Lookup → Bool
has_version v l = l.version == v

-- A call of this version is for this source and this keyword.
abbrev pub matches : Text → Text → ℕ → Lookup → Bool
matches source keyword v l = not (l.version == v) || (l.source == source && l.keyword == keyword)

abbrev pub Match : Search → List Lookup → Type 0
Match p ls = All (λ l. matches p.selected p.keyword p.version l ≡ true) ls

-- No call has a later version than the panel; those of its version are for its source and keyword;
-- and the timer and the calls in flight have one of that version if the panel loads, and none
-- otherwise.
pub record IsSearching (p : Search) : Type 0 where
  pub timer_up_to : IsUpTo version_of p.version p.timer
  pub up_to : IsUpTo version_of p.version p.in_flight
  pub timer_match : Match p p.timer
  pub match : Match p p.in_flight
  pub awaited :
      tally (has_version p.version) p.timer + tally (has_version p.version) p.in_flight
      ≡ (if p.loading then 1 else 0)

pub Match-later :
    (p : Search) (v : ℕ) (ls : List Lookup)
    → IsUpTo version_of v ls
    → p.version ≡ suc v
    → Match p ls
Match-later p v [] h e = tt
Match-later p v (l ∷ ls) (a, h) e =
    (ground (arith, nat_eq_iff l.version p.version), Match-later p v ls h e)

pub restart-IsSearching :
    (keyword : Text) (p : Search) → IsSearching p → IsSearching (restart keyword p)
restart-IsSearching keyword p a = record {
  timer_up_to = tt;
  up_to = IsUpTo-suc version_of p.version p.in_flight a.up_to;
  timer_match = tt;
  match = Match-later (restart keyword p) p.version p.in_flight a.up_to refl;
  awaited = ground (arith, tally-IsUpTo version_of p.version p.in_flight a.up_to);
}

-- The test of the code agrees with that of the version alone.
is_current_agrees :
    (l : Lookup) (p : Search)
    → matches p.selected p.keyword p.version l ≡ true
    → is_current l p ≡ (l.version == p.version)
is_current_agrees l p h = ground (
  arith,
  nat_eq_iff p.version l.version,
  nat_eq_iff l.version p.version,
  list_beq_iff l.source p.selected,
  list_beq_iff p.selected l.source,
  list_beq_iff l.keyword p.keyword,
  list_beq_iff p.keyword l.keyword,
)

-- the state with this call in flight as well
abbrev pub Before : Lookup → Search → Type 0
Before l p = IsSearching (record p { in_flight = l ∷ p.in_flight })

-- What the end of a call leaves, where it is current and where it is not.
finish-IsSearching :
    (l : Lookup) (p q : Search)
    → Before l p
    → ((q.version ≡ p.version) × ((q.selected ≡ p.selected) × (q.keyword ≡ p.keyword)))
      × ((q.timer ≡ p.timer) × (q.in_flight ≡ p.in_flight))
    → q.loading ≡ (if is_current l p then false else p.loading)
    → IsSearching q
finish-IsSearching l p q a ((v, (s, k)), (t, f)) i = record {
  timer_up_to = rw (v, t) a.timer_up_to;
  up_to = rw (v, f) a.up_to.1;
  timer_match = rw (v, s, k, t) a.timer_match;
  match = rw (v, s, k, f) a.match.1;
  awaited = rw (v, t, f, i) (ground (arith, a.awaited, is_current_agrees l p a.match.0));
}

-- The call ends and leaves the panel, or the panel without what loads, by whether it is current.
pub end-IsSearching :
    (l : Lookup) (p q r : Search)
    → Before l p
    → (((q.version ≡ p.version) × ((q.selected ≡ p.selected) × (q.keyword ≡ p.keyword)))
        × ((q.timer ≡ p.timer) × (q.in_flight ≡ p.in_flight)))
      × (q.loading ≡ false)
    → (((r.version ≡ p.version) × ((r.selected ≡ p.selected) × (r.keyword ≡ p.keyword)))
        × ((r.timer ≡ p.timer) × (r.in_flight ≡ p.in_flight)))
      × (r.loading ≡ p.loading)
    → IsSearching (if is_current l p then q else r)
end-IsSearching l p q r a (x, i) (y, j) =
    if-elim IsSearching (is_current l p)
      (λ c. finish-IsSearching l p q a x (i ∙ sym (if_true (is_current l p) _ _ c)))
      (λ c. finish-IsSearching l p r a y (j ∙ sym (if_false (is_current l p) _ _ c)))
