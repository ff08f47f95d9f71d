-- ===== src/Devops/Tabs.antt =====
-- The tabs of static/js/devops-vue.js: `visibleTabs`, `tabGroups` and `onTabKeydown`.
use centos_info_collect.Base.{
  ℕ, Bool, true, false, not, ◌&&◌, ◌||◌, Option, none, some, List, [], ◌∷◌, ◌++◌, Text, codes, null,
  map, select, elem, length, get_elem?, ◌==◌, ℕ_eq, list_eq, if◌then◌else◌,
}
use centos_info_collect.Tablist.{Key, target}
pub mod Visible

pub data Group : Type 0 where
  execution : Group
  delivery : Group
  governance : Group

-- `featureAccess`
pub record Features : Type 0 where
  pub incidents : Bool
  pub command_center : Bool
  pub service_cost : Bool
  pub delivery_gates : Bool
  pub integration_readiness : Bool

pub data Feature : Type 0 where
  any_feature : Feature
  incidents : Feature
  command_center : Feature
  service_cost : Feature
  delivery_gates : Feature
  integration_readiness : Feature

-- `permission` is empty for a tab that needs none, and `feature` is `any_feature` likewise.
pub record Tab : Type 0 where
  pub key : Text
  pub permission : Text
  pub feature : Feature
  pub group : Group

abbrev pub plain : Text → Group → Tab
plain key group = record { key = key; permission = []; feature = any_feature; group = group }

abbrev pub permitted : Text → Text → Group → Tab
permitted key permission group = record {
  key = key;
  permission = permission;
  feature = any_feature;
  group = group;
}

abbrev pub featured : Text → Feature → Group → Tab
featured key feature group = record { key = key; permission = []; feature = feature; group = group }

abbrev pub tabs : List Tab
tabs =
    plain (codes "dashboard") execution
    ∷ plain (codes "hosts") execution
    ∷ permitted (codes "commands") (codes "command") execution
    ∷ permitted (codes "tasks") (codes "task") execution
    ∷ permitted (codes "metrics") (codes "metric") execution
    ∷ permitted (codes "approvals") (codes "approval") governance
    ∷ permitted (codes "deployments") (codes "deployment") delivery
    ∷ featured (codes "command-center") command_center governance
    ∷ featured (codes "incidents") incidents governance
    ∷ featured (codes "service-cost") service_cost governance
    ∷ featured (codes "delivery-gates") delivery_gates delivery
    ∷ featured (codes "integration-readiness") integration_readiness delivery
    ∷ permitted (codes "files") (codes "file") delivery
    ∷ permitted (codes "notifications") (codes "notification") governance
    ∷ permitted (codes "audit") (codes "audit") governance
    ∷ []

abbrev pub has_feature : Features → Feature → Bool
has_feature f any_feature = true
has_feature f incidents = f.incidents
has_feature f command_center = f.command_center
has_feature f service_cost = f.service_cost
has_feature f delivery_gates = f.delivery_gates
has_feature f integration_readiness = f.integration_readiness

-- `permissions` are the names of those that are granted.
abbrev pub is_visible : List Text → Features → Tab → Bool
is_visible permissions f t =
    (null t.permission || elem t.permission permissions) && has_feature f t.feature

unfoldable pub visible_tabs : List Text → Features → List Tab
visible_tabs permissions f = select (is_visible permissions f) tabs

abbrev pub same_group : Group → Group → Bool
same_group execution execution = true
same_group delivery delivery = true
same_group governance governance = true
same_group execution delivery = false
same_group execution governance = false
same_group delivery execution = false
same_group delivery governance = false
same_group governance execution = false
same_group governance delivery = false

abbrev pub group_tabs : List Tab → Group → Group × List Tab
group_tabs visible g = (g, select (λ t. same_group t.group g) visible)

-- The groups that have a tab, with their tabs.
unfoldable pub tab_groups : List Tab → List (Group × List Tab)
tab_groups visible =
    select (λ g. not (null g.1)) (map (group_tabs visible) (execution ∷ delivery ∷ governance ∷ []))

-- `onTabKeydown` at the place `index`: the tab that becomes active, if any.
unfoldable pub on_tab_keydown : List Tab → Key → ℕ → Option Text
unfolding target
on_tab_keydown visible k index = elim (target k index (length visible)) [
  | none ↦ none
  | some j ↦ elim (get_elem? visible j) [ none ↦ none | some t ↦ some t.key ]
]
