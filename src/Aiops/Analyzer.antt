-- ===== src/Aiops/Analyzer.antt =====
-- `loadK8sAnalyzer`, `refreshK8sAnalyzer` and `canRefreshK8sAnalyzer` of static/js/aiops-vue.js,
-- with the two buttons that call them.
use centos_info_collect.Base.{
  ℕ, Bool, true, false, not, ◌&&◌, ◌||◌, none, some, List, [], ◌∷◌, ◌++◌, Text, codes, null, pick,
  if◌then◌else◌,
}
use centos_info_collect.Metric.Values.{Value, property}
use centos_info_collect.Aiops.Replies.{Reply, Result, failed, loaded, read_reply}

-- what is asked of the server; `refresh` is the parameter `refresh=1`
pub record Query : Type 0 where
  pub cluster : Text
  pub namespace : Text
  pub refresh : Bool

pub record Analyzer : Type 0 where
  pub cluster : Text
  pub namespace : Text
  pub loading : Bool
  pub refreshing : Bool
  pub error : Text
  pub result : Value
  pub in_flight : List Query

-- The template of the address, empty where it is missing, and the two flags that allow a refresh.
pub record Context : Type 0 where
  pub template : Text
  pub can_refresh : Bool
  pub refresh_allowed : Bool
  pub show : Value → Text

abbrev pub can_refresh_k8s_analyzer : Context → Bool
can_refresh_k8s_analyzer c = c.can_refresh || c.refresh_allowed

abbrev pub or_text : Text → Text → Text
or_text s t = if null s then t else s

-- `force` is what the argument is as a condition.
unfoldable pub load_k8s_analyzer : Context → Bool → Analyzer → Analyzer
load_k8s_analyzer c force p =
    let refresh = force && can_refresh_k8s_analyzer c in
    let q : Query = record {
      cluster = p.cluster;
      namespace = or_text p.namespace (codes "default");
      refresh = refresh;
    } in
    if null c.template || null p.cluster then p else record p {
      refreshing = refresh;
      loading = true;
      error = [];
      in_flight = p.in_flight ++ q ∷ [];
    }

unfoldable pub refresh_k8s_analyzer : Context → Analyzer → Analyzer
unfolding load_k8s_analyzer
refresh_k8s_analyzer c p =
    let loaded = load_k8s_analyzer c true p in
    if not (can_refresh_k8s_analyzer c) then p else loaded

abbrev pub settle : Result → Analyzer → Analyzer
settle (failed m) p = record p { error = m; loading = false; refreshing = false }
settle (loaded b) p = record p {
  result = property (codes "result") b;
  loading = false;
  refreshing = false;
}

unfoldable pub reply : Context → ℕ → Reply → Analyzer → Analyzer
reply c n r p = elim (pick n p.in_flight) [
  | none ↦ p
  | some (q, rest) ↦
      settle (read_reply c.show (codes "Kubernetes 分析失败") r) (record p { in_flight = rest })
]

-- A button is disabled without a cluster and while the panel loads.
abbrev pub is_disabled : Analyzer → Bool
is_disabled p = null p.cluster || p.loading

-- The button that analyses. Its handler is the name of the method, so Vue calls the method with the
-- event of the click, and an object is true as a condition.
unfoldable pub click_analyze : Context → Analyzer → Analyzer
unfolding load_k8s_analyzer
click_analyze c p = if is_disabled p then p else load_k8s_analyzer c true p

-- The button that refreshes, which there is only if a refresh is allowed.
unfoldable pub click_refresh : Context → Analyzer → Analyzer
unfolding refresh_k8s_analyzer
click_refresh c p = if is_disabled p then p else refresh_k8s_analyzer c p
