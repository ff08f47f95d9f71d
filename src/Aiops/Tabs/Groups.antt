-- ===== src/Aiops/Tabs/Groups.antt =====
-- The two groups of tabs of static/js/aiops-vue.js.
use centos_info_collect.Base.{
  ◌≡◌, refl, ap, ◌∙◌, Bool, true, false, List, [], ◌∷◌, ◌++◌, append-nil, select, codes, Text,
}
use centos_info_collect.Aiops.Tabs.{
  Group, analysis, investigation, Tab, Endpoints, optional, tab, tabs, in_group, tab_groups,
}

-- the tabs of the groups, one group after the other
abbrev pub grouped : List (Group × List Tab) → List Tab
grouped [] = []
grouped ((g, ts) ∷ gs) = ts ++ grouped gs

abbrev regrouped : List Tab → List Tab
regrouped ts = select (in_group analysis) ts ++ (select (in_group investigation) ts ++ [])

regrouped-optional :
    (b : Bool) (k : Text) (ts : List Tab)
    → regrouped ts ≡ ts
    → regrouped (optional b (tab analysis k) ++ ts) ≡ optional b (tab analysis k) ++ ts
regrouped-optional true k ts h = ap (λ us. tab analysis k ∷ us) h
regrouped-optional false k ts h = h

-- All these tabs are of the second group.
abbrev IsSecond : List Tab → Type 0
IsSecond ts = (select (in_group analysis) ts ≡ []) × (select (in_group investigation) ts ≡ ts)

IsSecond-optional :
    (b : Bool) (k : Text) (ts : List Tab)
    → IsSecond ts
    → IsSecond (optional b (tab investigation k) ++ ts)
IsSecond-optional true k ts (h, i) = (h, ap (λ us. tab investigation k ∷ us) i)
IsSecond-optional false k ts h = h

regrouped-IsSecond : (ts : List Tab) → IsSecond ts → regrouped ts ≡ ts
regrouped-IsSecond ts (h, i) =
    ap (λ us. us ++ (select (in_group investigation) ts ++ [])) h
    ∙ append-nil (select (in_group investigation) ts)
    ∙ i

-- the tabs from the first one of the second group on
abbrev second : Endpoints → List Tab
second e =
    tab investigation (codes "investigation")
      ∷ optional e.operator_scan (tab investigation (codes "operator-scan"))
    ++ (optional e.k8s_analyzer (tab investigation (codes "k8s-analyzer"))
        ++ (tab investigation (codes "diagnostic")
            ∷ tab investigation (codes "runbook")
            ∷ tab investigation (codes "ingest")
            ∷ []))

regrouped-second : (e : Endpoints) → regrouped (second e) ≡ second e
regrouped-second e = regrouped-IsSecond (second e) (
    IsSecond-optional true (codes "investigation") _ (
      IsSecond-optional e.operator_scan (codes "operator-scan") _
        (IsSecond-optional e.k8s_analyzer (codes "k8s-analyzer") _ (refl, refl))))

-- Whatever endpoints the page's data names, the groups of `tabGroups`, one after the other, are the
-- tabs in the order of `tabs`: each tab is drawn once, in the order that `tabIndex` counts.
pub tab_groups-tabs : (e : Endpoints) → grouped (tab_groups e) ≡ tabs e
unfolding tabs tab_groups
tab_groups-tabs e =
    ap
      (λ ts.
        tab analysis (codes "overview")
        ∷ tab analysis (codes "anomaly")
        ∷ tab analysis (codes "correlation")
        ∷ tab analysis (codes "impact")
        ∷ tab analysis (codes "quality")
        ∷ ts)
      (regrouped-optional e.alert_groups (codes "alert-groups") _ (
        regrouped-optional e.signal_freshness (codes "signal-freshness") _ (
          regrouped-optional e.service_impacts (codes "service-impacts") _ (
            regrouped-optional e.service_reliability (codes "service-reliability") _ (
              regrouped-optional e.service_workbench (codes "service-workbench") _ (
                ap (λ ts. tab analysis (codes "rca") ∷ tab analysis (codes "capacity") ∷ ts)
                  (regrouped-second e)))))))
