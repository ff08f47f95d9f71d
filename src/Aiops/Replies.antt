-- ===== src/Aiops/Replies.antt =====
-- What every loader of static/js/aiops-vue.js makes of the end of its request.
use centos_info_collect.Base.{Bool, not, ◌||◌, Text, codes, null, if◌then◌else◌}
use centos_info_collect.Metric.Values.{Value, property, truthy}

-- `thrown` is an error of `fetch`, of `response.json()` or of reading a property of a body that is
-- `null`, with its message; `answered` is `response.ok` and the body.
pub data Reply : Type 0 where
  thrown : Text → Reply
  answered : Bool → Value → Reply

pub data Result : Type 0 where
  failed : Text → Result
  loaded : Value → Result

-- `text || fallback`
abbrev pub or_default : Text → Text → Text
or_default text fallback = if null text then fallback else text

-- `new Error(result.message || fallback).message`, given how `Error` makes a text of a value
abbrev pub reason : (Value → Text) → Text → Value → Text
reason show fallback b =
    let m = property (codes "message") b in if truthy m then show m else fallback

-- The message of the `catch` or the body that is read.
unfoldable pub read_reply : (Value → Text) → Text → Reply → Result
read_reply show fallback (thrown message) = failed (or_default message fallback)
read_reply show fallback (answered ok b) =
    if not ok || not (truthy (property (codes "ok") b))
    then failed (or_default (reason show fallback b) fallback)
    else loaded b
