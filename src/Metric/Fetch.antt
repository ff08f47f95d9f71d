-- ===== src/Metric/Fetch.antt =====
-- `fetchMetricJson` of static/js/ops-vue-pages.js.
use centos_info_collect.Base.{
  ℕ, ◌≡◌, ap, sym, subst, ◌↔◌, Bool, true, false, not, ◌&&◌, ◌||◌, Option, none, some, Text, codes,
  null, includes, ◌==◌, ℕ_eq, if◌then◌else◌, arith,
}
use centos_info_collect.Metric.Values.{Value, boolean, property, is_record}
use centos_info_collect.Metric.Texts.{safe_metric_resource_text, to_lower_case}

-- What the page uses the request for.
pub data Context : Type 0 where
  query : Context
  metadata : Context
  dashboard : Context
  resource : Context

-- What the browser gives: a `TypeError` for a request that has no response, or the response, whose
-- `json` is `none` where the body is no JSON and whose `content_type` is empty where it has none.
pub record Response : Type 0 where
  pub redirected : Bool
  pub status : ℕ
  pub ok : Bool
  pub content_type : Text
  pub json : Option Value

-- How the function settles: a `TypeError` of `fetch`, an `Error` with its message, or the body.
pub data Outcome : Type 0 where
  type_error : Outcome
  failure : Text → Outcome
  body : Value → Outcome

pub record Messages : Type 0 where
  pub missing : Text
  pub forbidden : Text
  pub format : Text
  pub unavailable : Text
  pub failed : Text

abbrev pub messages : Context → Messages
messages query = record {
  missing = codes "指标查询接口不可用，请刷新页面后重试";
  forbidden = codes "当前账号无权执行指标查询";
  format = codes "指标查询响应格式异常，请稍后重试";
  unavailable = codes "指标查询服务暂时不可用，请稍后重试";
  failed = codes "指标查询失败";
}
messages metadata = record {
  missing = codes "指标提示接口不可用，仍可手工输入查询";
  forbidden = codes "当前账号无权加载指标提示";
  format = codes "指标提示响应格式异常";
  unavailable = codes "指标提示服务暂时不可用";
  failed = codes "指标提示加载失败";
}
messages dashboard = record {
  missing = codes "监控看板接口不可用，请刷新页面后重试";
  forbidden = codes "当前账号无权查看监控看板";
  format = codes "监控看板响应格式异常，请稍后重试";
  unavailable = codes "监控看板暂时不可用，请稍后重试";
  failed = codes "监控看板加载失败";
}
messages resource = record {
  missing = codes "指标资源接口不可用，请刷新页面后重试";
  forbidden = codes "当前账号无权查看指标资源";
  format = codes "指标资源响应格式异常，请稍后重试";
  unavailable = codes "指标资源服务暂时不可用，请稍后重试";
  failed = codes "指标资源请求失败";
}

abbrev pub signed_out : Text
signed_out = codes "登录状态已失效，请重新登录后再试"

abbrev pub is_true : Value → Bool
is_true (boolean b) = b
is_true v = false

-- the test of the content type
abbrev pub is_json : (ℕ → Text) → Response → Bool
is_json lower_other r =
    includes (codes "application/json") (to_lower_case lower_other r.content_type)

-- A status as the code tells them apart.
abbrev pub refused : ℕ → Text → Text → Text
refused status forbidden other =
    if status == 401 then signed_out else if status == 403 then forbidden else other

-- the checks of a body that has been parsed
abbrev pub check_body : Messages → Response → Value → Outcome
check_body m r b =
    let response_message = safe_metric_resource_text (property (codes "message") b) 500 in
    if not (is_record b)
    then failure m.format
    else if not r.ok || not (is_true (property (codes "ok") b))
    then failure (
        refused r.status m.forbidden (if null response_message then m.failed else response_message))
    else body b

abbrev pub parsed : Messages → Response → Option Value → Outcome
parsed m r none = failure m.format
parsed m r (some b) = check_body m r b

abbrev pub read_response : (ℕ → Text) → Messages → Response → Outcome
read_response lower_other m r =
    if r.redirected && not (is_json lower_other r)
    then failure signed_out
    else if not (is_json lower_other r)
    then failure (refused r.status m.forbidden (if r.ok then m.format else m.unavailable))
    else parsed m r r.json

-- `url` is the endpoint of the page's data, where it is a string, and empty otherwise.
unfoldable pub fetch_metric_json : (ℕ → Text) → Context → Text → Option Response → Outcome
fetch_metric_json lower_other context url reply =
    if null url
    then failure (messages context).missing
    else elim reply [ none ↦ type_error | some r ↦ read_response lower_other (messages context) r ]

abbrev IsGood : Response → Value → Type 0
IsGood r b = (is_record b ≡ true) × ((r.ok ≡ true) × (is_true (property (codes "ok") b) ≡ true))

check_body_iff :
    (m : Messages) (r : Response) (c b : Value)
    → (check_body m r c ≡ body b) ↔ ((c ≡ b) × IsGood r c)
check_body_iff m r c b = ground arith

parsed_iff :
    (m : Messages) (r : Response) (j : Option Value) (b : Value)
    → (parsed m r j ≡ body b) ↔ ((j ≡ some b) × IsGood r b)
parsed_iff m r none b = ground arith
parsed_iff m r (some c) b =
    let (to, from) = check_body_iff m r c b in
    (
      λ h. let (e, g) = to h in (ap some e, subst (IsGood r) e g),
      λ k. let e : c ≡ b = ground (arith, k.0) in from (e, subst (IsGood r) (sym e) k.1),
    )

read_response_iff :
    (lower_other : ℕ → Text) (m : Messages) (r : Response) (b : Value)
    → (read_response lower_other m r ≡ body b)
      ↔ ((is_json lower_other r ≡ true) × ((r.json ≡ some b) × IsGood r b))
read_response_iff lower_other m r b = ground (arith, parsed_iff m r r.json b)

-- A body is given back exactly if there is an endpoint, a response has come, its content type is
-- JSON, its body parses to that object, its status is `ok` and so is the field `ok` of the object.
pub fetch_metric_json-body_iff :
    (lower_other : ℕ → Text) (context : Context) (url : Text) (r : Response) (b : Value)
    → (fetch_metric_json lower_other context url (some r) ≡ body b) ↔ (
        ((null url ≡ false) × (is_json lower_other r ≡ true))
        × (((r.json ≡ some b) × (is_record b ≡ true))
            × ((r.ok ≡ true) × (is_true (property (codes "ok") b) ≡ true))))
unfolding fetch_metric_json
fetch_metric_json-body_iff lower_other context url r b =
    ground (arith, read_response_iff lower_other (messages context) r b)
