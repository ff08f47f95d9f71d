-- ===== src/Metric/Dashboard/Filters.antt =====
-- The filters of the dashboard of static/js/ops-vue-pages.js: `dashboardClusters`,
-- `dashboardNamespaces`, `dashboardRows`, `chooseDashboardFilter`, `changeDashboardCluster`,
-- `toggleDashboardSelect`, `selectAllDashboardNodes`, `clearDashboardNodes` and `setDashboardTab`.
use centos_info_collect.Base.{
  Bool, true, false, not, ◌&&◌, Option, none, some, List, [], Text, null, map, select, elem, ◌==◌,
  ℕ_eq, list_eq, if◌then◌else◌,
}
use centos_info_collect.Metric.Cleaning.{text_leb}
use centos_info_collect.Metric.Dashboard.{unique_after}
use centos_info_collect.Table.Sorting.{sort_by}

pub data Status : Type 0 where
  healthy : Status
  warning : Status
  critical : Status
  unknown : Status

pub data Measure : Type 0 where
  cpu : Measure
  memory : Measure
  disk : Measure

pub data Sort : Type 0 where
  metric_desc : Sort
  metric_asc : Sort
  name_asc : Sort
  name_desc : Sort

-- A pod, with its values from 0 to 100 as `V`, and `none` for `null`.
pub record Pod (V : Type 0) : Type 0 where
  pub name : Text
  pub cluster : Text
  pub namespace : Text
  pub status : Status
  pub cpu_value : Option V
  pub memory_value : Option V
  pub disk_value : Option V

-- The choices of the user, where `none` stands for `'all'`.
pub record Filters : Type 0 where
  pub cluster : Option Text
  pub namespace : Option Text
  pub status : Option Status
  pub measure : Measure
  pub sort : Sort
  pub select_menu : Text

abbrev pub default_filters : Filters
default_filters = record {
  cluster = none;
  namespace = none;
  status = none;
  measure = cpu;
  sort = metric_desc;
  select_menu = [];
}

abbrev pub same_status : Status → Status → Bool
same_status healthy healthy = true
same_status warning warning = true
same_status critical critical = true
same_status unknown unknown = true
same_status healthy warning = false
same_status healthy critical = false
same_status healthy unknown = false
same_status warning healthy = false
same_status warning critical = false
same_status warning unknown = false
same_status critical healthy = false
same_status critical warning = false
same_status critical unknown = false
same_status unknown healthy = false
same_status unknown warning = false
same_status unknown critical = false

-- `filter === 'all' || text === filter`
abbrev pub passes : Option Text → Text → Bool
passes none t = true
passes (some f) t = t == f

abbrev pub passes_status : Option Status → Status → Bool
passes_status none s = true
passes_status (some f) s = same_status s f

-- the order of `sort()`
abbrev pub text_before : Text → Text → Bool
text_before s t = text_leb s t && not (text_leb t s)

module _ {V : Type 0} where
  abbrev pub is_shown : Filters → Pod V → Bool
  is_shown f p =
      passes_status f.status p.status
      && passes f.cluster p.cluster
      && passes f.namespace p.namespace

  unfoldable pub dashboard_clusters : List (Pod V) → List Text
  unfolding unique_after sort_by
  dashboard_clusters pods =
      sort_by text_before
        (unique_after [] (select (λ n. not (null n)) (map (λ (p : Pod V). p.cluster) pods)))

  abbrev pub namespaces_in : Option Text → List (Pod V) → List Text
  namespaces_in cluster pods =
      select (λ n. not (null n))
        (map (λ (p : Pod V). p.namespace) (select (λ (p : Pod V). passes cluster p.cluster) pods))

  unfoldable pub dashboard_namespaces : Option Text → List (Pod V) → List Text
  unfolding unique_after sort_by
  dashboard_namespaces cluster pods =
      sort_by text_before (unique_after [] (namespaces_in cluster pods))

  abbrev pub value_of : Measure → Pod V → Option V
  value_of cpu p = p.cpu_value
  value_of memory p = p.memory_value
  value_of disk p = p.disk_value

-- `chooseDashboardFilter` for one of the filters
pub data Choice : Type 0 where
  by_cluster : Option Text → Choice
  by_namespace : Option Text → Choice
  by_status : Option Status → Choice
  by_measure : Measure → Choice
  by_sort : Sort → Choice
  toggles : Text → Choice

module _ {V : Type 0} (pods : List (Pod V)) where
  -- `changeDashboardCluster`
  abbrev pub keep_namespace : Option Text → Filters → Filters
  unfolding dashboard_namespaces
  keep_namespace none f = f
  keep_namespace (some n) f =
      if elem n (dashboard_namespaces f.cluster pods) then f else record f { namespace = none }

  unfoldable pub choose_dashboard_filter : Filters → Choice → Filters
  unfolding keep_namespace
  choose_dashboard_filter f (by_cluster c) =
      keep_namespace f.namespace (record f { cluster = c; select_menu = [] })
  choose_dashboard_filter f (by_namespace n) = record f { namespace = n; select_menu = [] }
  choose_dashboard_filter f (by_status s) = record f { status = s; select_menu = [] }
  choose_dashboard_filter f (by_measure m) = record f { measure = m; select_menu = [] }
  choose_dashboard_filter f (by_sort s) = record f { sort = s; select_menu = [] }
  choose_dashboard_filter f (toggles key) = record f {
    select_menu = if f.select_menu == key then [] else key;
  }

-- What `localeCompare` and the comparison of two values say.
module _ {V : Type 0} (name_before : Text → Text → Bool) (less : V → V → Bool) where
  -- `(left ?? -1) < (right ?? -1)`, for values that are not negative
  abbrev pub less_value : Option V → Option V → Bool
  less_value none none = false
  less_value none (some v) = true
  less_value (some v) none = false
  less_value (some v) (some w) = less v w

  -- The comparison of `dashboardRows` is negative.
  abbrev pub pod_before : Sort → Measure → Pod V → Pod V → Bool
  pod_before metric_desc m p q = less_value (value_of m q) (value_of m p)
  pod_before metric_asc m p q = less_value (value_of m p) (value_of m q)
  pod_before name_asc m p q = name_before p.name q.name
  pod_before name_desc m p q = name_before q.name p.name

  unfoldable pub dashboard_rows : Filters → List (Pod V) → List (Pod V)
  unfolding sort_by
  dashboard_rows f pods = sort_by (pod_before f.sort f.measure) (select (is_shown f) pods)
