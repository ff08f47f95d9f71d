-- ===== src/Aiops/Reliability/Latest.antt =====
-- What the panel of reliability promises, without identifiers: a new call makes the earlier ones
-- not count, the reply to the call that counts is shown, and the panel loads while one counts.
use centos_info_collect.Base.{
  ℕ, Bool, true, false, none, some, List, [], ◌∷◌, ◌++◌, Text, codes, null, pick, any, map,
  if◌then◌else◌,
}
use centos_info_collect.Metric.Values.{Value, property, array_or_empty}
use centos_info_collect.Aiops.Replies.{Reply, Result, failed, loaded, read_reply}
use centos_info_collect.Aiops.Loads.Methods.{or_null}
use centos_info_collect.Aiops.Reliability.{
  Event, selects, clicks, replies, reliability_rows, fallback,
}

-- `calls` says of each call that has not ended if it counts.
pub record Latest : Type 0 where
  pub window : Text
  pub error : Text
  pub results : List Value
  pub summary : Value
  pub calls : List Bool

abbrev pub is_loading : Latest → Bool
is_loading s = any (λ b. b) s.calls

abbrev pub ask : Text → Latest → Latest
ask endpoint s =
    if null endpoint
    then s
    else record s { error = []; calls = map (λ b. false) s.calls ++ true ∷ [] }

abbrev pub show_result : Result → Latest → Latest
show_result (failed m) s = record s { error = m }
show_result (loaded b) s = record s {
  summary = or_null (property (codes "summary") b);
  results = array_or_empty (reliability_rows b);
}

abbrev pub answer : (Value → Text) → ℕ → Reply → Latest → Latest
answer show n r s = elim (pick n s.calls) [
  | none ↦ s
  | some (counts, rest) ↦
      if counts
      then show_result (read_reply show fallback r) (record s { calls = rest })
      else record s { calls = rest }
]

abbrev pub advance : (Value → Text) → Text → Latest → Event → Latest
advance show endpoint s (selects w) = ask endpoint (record s { window = w })
advance show endpoint s clicks = if is_loading s then s else ask endpoint s
advance show endpoint s (replies n r) = answer show n r s

unfoldable pub advance_all : (Value → Text) → Text → Latest → List Event → Latest
advance_all show endpoint s [] = s
advance_all show endpoint s (e ∷ es) = advance_all show endpoint (advance show endpoint s e) es
