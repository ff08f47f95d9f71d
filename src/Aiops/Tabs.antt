-- ===== src/Aiops/Tabs.antt =====
-- The tabs of static/js/aiops-vue.js: which there are, their two groups, and how one is chosen.
use centos_info_collect.Base.{
  ℕ, ◌+◌, Bool, true, false, Option, none, some, List, [], ◌∷◌, ◌++◌, Text, codes, map, select, any,
  length, get_elem?, ◌==◌, ℕ_eq, list_eq, if◌then◌else◌,
}
use mathlib.Core.Option
use centos_info_collect.Tablist.{Key, target}
pub mod Groups
pub mod Focus

pub data Group : Type 0 where
  analysis : Group
  investigation : Group

pub record Tab : Type 0 where
  pub key : Text
  pub group : Group

-- which endpoints the page's data names
pub record Endpoints : Type 0 where
  pub alert_groups : Bool
  pub signal_freshness : Bool
  pub service_impacts : Bool
  pub service_reliability : Bool
  pub service_workbench : Bool
  pub operator_scan : Bool
  pub k8s_analyzer : Bool

abbrev pub tab : Group → Text → Tab
tab group key = record { key = key; group = group }

-- `...(given ? [tab] : [])`
abbrev pub optional : Bool → Tab → List Tab
optional given t = if given then t ∷ [] else []

unfoldable pub tabs : Endpoints → List Tab
tabs e =
    tab analysis (codes "overview")
      ∷ tab analysis (codes "anomaly")
      ∷ tab analysis (codes "correlation")
      ∷ tab analysis (codes "impact")
      ∷ tab analysis (codes "quality")
      ∷ optional e.alert_groups (tab analysis (codes "alert-groups"))
    ++ (optional e.signal_freshness (tab analysis (codes "signal-freshness"))
        ++ (optional e.service_impacts (tab analysis (codes "service-impacts"))
            ++ (optional e.service_reliability (tab analysis (codes "service-reliability"))
                ++ (optional e.service_workbench (tab analysis (codes "service-workbench"))
                    ++ (tab analysis (codes "rca")
                          ∷ tab analysis (codes "capacity")
                          ∷ tab investigation (codes "investigation")
                          ∷ optional e.operator_scan (tab investigation (codes "operator-scan"))
                        ++ (optional e.k8s_analyzer (tab investigation (codes "k8s-analyzer"))
                            ++ (tab investigation (codes "diagnostic")
                                ∷ tab investigation (codes "runbook")
                                ∷ tab investigation (codes "ingest")
                                ∷ [])))))))

abbrev pub same_group : Group → Group → Bool
same_group analysis analysis = true
same_group analysis investigation = false
same_group investigation analysis = false
same_group investigation investigation = true

abbrev pub in_group : Group → Tab → Bool
in_group g t = same_group t.group g

-- `tabGroups`, with each group's tabs
unfoldable pub tab_groups : Endpoints → List (Group × List Tab)
unfolding tabs
tab_groups e =
    (analysis, select (in_group analysis) (tabs e))
    ∷ (investigation, select (in_group investigation) (tabs e))
    ∷ []

-- What the page shows and which tab has the focus, by its place.
pub record Page : Type 0 where
  pub active : Text
  pub focus : ℕ

abbrev pub select_tab : Text → Page → Page
select_tab key p = record p { active = key }

abbrev pub select_found : Option Tab → Page → Page
select_found none p = p
select_found (some t) p = select_tab t.key p

abbrev pub select_at : List Tab → Option ℕ → Page → Page
select_at ts none p = p
select_at ts (some j) p = select_found (get_elem? ts j) p

-- `onTabKeydown` at the tab that has the focus
unfoldable pub on_tab_keydown : List Tab → Key → Page → Page
unfolding target
on_tab_keydown ts k p = select_at ts (target k p.focus (length ts)) p

-- A click on a tab's button gives it the focus.
abbrev pub click_found : ℕ → Option Tab → Page → Page
click_found i none p = p
click_found i (some t) p = record (select_tab t.key p) { focus = i }

abbrev pub click : List Tab → ℕ → Page → Page
click ts i p = click_found i (get_elem? ts i) p

-- the place of the tab of a key
abbrev pub place : Text → List Tab → Option ℕ
place key [] = none
place key (t ∷ ts) =
    let rest = place key ts in if t.key == key then some 0 else Option.map (λ i. i + 1) rest

abbrev pub focus_at : Option ℕ → Page → Page
focus_at none p = p
focus_at (some i) p = record p { focus = i }

-- The key `Tab` moves the focus into the list, to the one tab whose `tabindex` is 0.
abbrev pub enter : List Tab → Page → Page
enter ts p = focus_at (place p.active ts) p

-- what `hashTabs` makes of the fragment of the address, without its `#`
abbrev pub hash_tab : Text → Option Text
hash_tab hash =
    if hash == codes "analysis"
    then some (codes "anomaly")
    else if hash == codes "investigation"
    then some (codes "investigation")
    else if hash == codes "diagnostic"
    then some (codes "diagnostic")
    else none

abbrev pub open_at : List Tab → Option Text → Page → Page
open_at ts none p = p
open_at ts (some key) p = if any (λ t. t.key == key) ts then select_tab key p else p

unfoldable pub mounted : List Tab → Text → Page
mounted ts hash = open_at ts (hash_tab hash) (record { active = codes "overview"; focus = 0 })

pub data Event : Type 0 where
  clicks : ℕ → Event
  presses : Key → Event
  enters : Event

unfoldable pub step : List Tab → Page → Event → Page
unfolding on_tab_keydown
step ts p (clicks i) = click ts i p
step ts p (presses k) = on_tab_keydown ts k p
step ts p enters = enter ts p

unfoldable pub run : List Tab → Page → List Event → Page
unfolding step
run ts p [] = p
run ts p (ev ∷ es) = run ts (step ts p ev) es
