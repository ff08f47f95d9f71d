-- ===== src/Devops/Tabs/Visible.antt =====
-- The tabs that are drawn in static/js/devops-vue.js.
use centos_info_collect.Base.{
  ℕ, ◌+◌, ◌≡◌, refl, ap, ◌∙◌, Bool, true, not, List, [], ◌∷◌, ◌++◌, null, map, select, all, tally,
  tally-append, if◌then◌else◌, arith,
}
use centos_info_collect.Devops.Tabs.{
  Group, execution, delivery, governance, Tab, same_group, group_tabs, tab_groups,
}

-- the tabs of the groups, one group after the other
abbrev pub grouped : List (Group × List Tab) → List Tab
grouped [] = []
grouped ((g, ts) ∷ gs) = ts ++ grouped gs

-- A group without a tab adds none.
grouped-select :
    (gs : List (Group × List Tab)) → grouped (select (λ g. not (null g.1)) gs) ≡ grouped gs
grouped-select [] = refl
grouped-select ((g, []) ∷ gs) = grouped-select gs
grouped-select ((g, t ∷ ts) ∷ gs) = ap (λ us. t ∷ (ts ++ us)) (grouped-select gs)

all-select : {A : Type 0} (p : A → Bool) (xs : List A) → all p (select p xs) ≡ true
all-select p [] = refl
all-select p (x ∷ xs) = ground (arith, all-select p xs)

tally-select :
    (p q : Tab → Bool) (t : Tab) (ts : List Tab)
    → tally p (select q (t ∷ ts))
      ≡ (if q t then (if p t then 1 else 0) else 0) + tally p (select q ts)
tally-select p q t ts = ground arith

one_group :
    (n : ℕ) (g : Group)
    → (if same_group g execution then n else 0)
        + (if same_group g delivery then n else 0)
        + (if same_group g governance then n else 0)
      ≡ n
one_group n execution = omega arith
one_group n delivery = omega arith
one_group n governance = omega arith

abbrev of_group : Group → List Tab → List Tab
of_group g ts = select (λ t. same_group t.group g) ts

tally-groups :
    (p : Tab → Bool) (ts : List Tab)
    → tally p (of_group execution ts)
        + tally p (of_group delivery ts)
        + tally p (of_group governance ts)
      ≡ tally p ts
tally-groups p [] = refl
tally-groups p (t ∷ ts) =
    let n : ℕ = if p t then 1 else 0 in
    omega (
      arith,
      tally-select p (λ u. same_group u.group execution) t ts,
      tally-select p (λ u. same_group u.group delivery) t ts,
      tally-select p (λ u. same_group u.group governance) t ts,
      one_group n t.group,
      tally-groups p ts,
      tally-cons p t ts,
    )
  where
    tally-cons :
        (r : Tab → Bool) (u : Tab) (us : List Tab)
        → tally r (u ∷ us) ≡ (if r u then 1 else 0) + tally r us
    tally-cons r u us = ground arith

-- Every tab that is visible is drawn exactly once, whatever one asks of it, and no other is; and no
-- group without a tab is drawn.
pub tab_groups_complete :
    (visible : List Tab) (p : Tab → Bool)
    → (tally p (grouped (tab_groups visible)) ≡ tally p visible)
      × (all (λ g. not (null g.1)) (tab_groups visible) ≡ true)
unfolding tab_groups
tab_groups_complete visible p =
    let gs = map (group_tabs visible) (execution ∷ delivery ∷ governance ∷ []) in
    let e = of_group execution visible in
    let d = of_group delivery visible in
    let g = of_group governance visible in
    (
      ap (tally p) (grouped-select gs)
          ∙ omega (
            arith,
            tally-append p e (d ++ (g ++ [])),
            tally-append p d (g ++ []),
            tally-append p g [],
            tally-groups p visible,
          ),
      all-select (λ h. not (null h.1)) gs,
    )
