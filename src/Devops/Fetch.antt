-- ===== src/Devops/Fetch.antt =====
-- `apiFetch` of static/js/devops-vue.js.
use centos_info_collect.Base.{ℕ, Bool, not, ◌||◌, ◌++◌, Text, codes, null, if◌then◌else◌}
use centos_info_collect.Metric.Decimals.{to_text}

-- A response: `refused` says that its body has the field `ok` and that this is `false`, `message`
-- is the body's message, empty where it has none, and `payload` the body.
pub record Response (A : Type 0) : Type 0 where
  pub ok : Bool
  pub status : ℕ
  pub refused : Bool
  pub message : Text
  pub payload : A

-- `thrown` is an error of `fetch` or of `response.json()`, with its message.
pub data Reply (A : Type 0) : Type 0 where
  thrown : Text → Reply A
  response : Response A → Reply A

pub data Outcome (A : Type 0) : Type 0 where
  failure : Text → Outcome A
  success : A → Outcome A

unfoldable pub api_fetch : {A : Type 0} → Reply A → Outcome A
api_fetch (thrown m) = failure m
api_fetch (response r) =
    if not r.ok || r.refused
    then failure (if null r.message then codes "HTTP " ++ to_text r.status else r.message)
    else success r.payload
