-- ===== src/Metric/Labels.antt =====
-- `isSensitiveMetricLabelKey` and `isSensitiveMetricLabelValue` of static/js/ops-vue-pages.js.
use centos_info_collect.Base.{
  ℕ, ◌+◌, Bool, true, false, not, ◌&&◌, ◌||◌, List, [], ◌∷◌, ◌++◌, Text, codes, null, is_space,
  trim, reverse, take, drop, leb, elem, any, includes, starts_with, split, ◌==◌, ℕ_eq, list_eq,
  if◌then◌else◌, map,
}
use centos_info_collect.Base.Regex.{Regex, cls, seq, alt, optional, eps, star, never, test}
use centos_info_collect.Metric.Values.{Value, string}
use centos_info_collect.Metric.Texts.{to_lower_case}

abbrev pub is_upper : ℕ → Bool
is_upper c = leb 65 c && leb c 90

abbrev pub is_lower_or_digit : ℕ → Bool
is_lower_or_digit c = (leb 97 c && leb c 122) || (leb 48 c && leb c 57)

-- `replace(/([a-z0-9])([A-Z])/g, '$1_$2')`: the second unit of a match starts no other
unfoldable pub break_words : Text → Text
break_words [] = []
break_words (c ∷ []) = c ∷ []
break_words (c ∷ d ∷ s) =
    if is_lower_or_digit c && is_upper d
    then c ∷ 95 ∷ break_words (d ∷ s)
    else c ∷ break_words (d ∷ s)

-- `replace(/[^a-z0-9]+/g, '_')`, where `inside` says whether the run before has its `_`
unfoldable pub join_others : Bool → Text → Text
join_others inside [] = []
join_others inside (c ∷ s) =
    if is_lower_or_digit c
    then c ∷ join_others false s
    else if inside
    then join_others true s
    else 95 ∷ join_others true s

abbrev pub strip_start : Text → Text
strip_start [] = []
strip_start (c ∷ s) = if c == 95 then strip_start s else c ∷ s

-- `replace(/^_+|_+$/g, '')`
abbrev pub strip : Text → Text
strip s = reverse (strip_start (reverse (strip_start s)))

abbrev pub sensitive_parts : List Text
sensitive_parts = map codes (
    "token" ∷ "password" ∷ "passwd" ∷ "secret" ∷ "apikey" ∷ "credential" ∷ "credentials"
    ∷ "authorization" ∷ "auth" ∷ "webhook" ∷ "key" ∷ [])

abbrev pub ends_with : Text → Text → Bool
ends_with p s = starts_with (reverse p) (reverse s)

abbrev pub concat : List Text → Text
concat [] = []
concat (t ∷ ts) = t ++ concat ts

-- the tests of the normalized key, for the list of sensitive parts
unfoldable pub names_secret : List Text → Text → Bool
unfolding includes split elem
names_secret sensitive_parts normalized =
    let parts = split 95 normalized in
    let compact = concat parts in
    any (λ sensitive. elem sensitive parts) sensitive_parts
    || includes (codes "api_key") normalized
    || any (λ sensitive. ends_with sensitive compact) sensitive_parts

module _ (lower_other : ℕ → Text) where
  unfoldable pub normalized_key : Text → Text
  unfolding break_words join_others
  normalized_key key = strip (join_others false (to_lower_case lower_other (break_words key)))

  unfoldable pub is_sensitive_metric_label_key : Text → Bool
  unfolding normalized_key names_secret
  is_sensitive_metric_label_key key =
      let normalized = normalized_key key in
      if null normalized then false else names_secret sensitive_parts normalized

-- a unit of a pattern with the flag `i`
abbrev pub unit : ℕ → Regex
unit c = cls (λ d. c == d || (leb 97 c && leb c 122 && d + 32 == c))

abbrev pub word : Text → Regex
word [] = eps
word (c ∷ s) = seq (unit c) (word s)

abbrev pub unit_of : Text → Regex
unit_of s = cls (λ d. elem d s)

abbrev pub anything : Regex
anything = star (cls (λ d. true))

abbrev pub any_of : List Regex → Regex
any_of [] = never
any_of (r ∷ rs) = alt r (any_of rs)

abbrev pub separated : Text → Text → Regex
separated a b = seq (word a) (seq (optional (unit_of (codes "_-"))) (word b))

abbrev pub secret_name : Regex
secret_name = any_of (
    separated (codes "api") (codes "key")
    ∷ word (codes "apikey")
    ∷ word (codes "token")
    ∷ word (codes "password")
    ∷ word (codes "passwd")
    ∷ word (codes "secret")
    ∷ word (codes "credential")
    ∷ word (codes "credentials")
    ∷ word (codes "authorization")
    ∷ word (codes "auth")
    ∷ word (codes "webhook")
    ∷ separated (codes "access") (codes "key")
    ∷ separated (codes "client") (codes "secret")
    ∷ [])

-- A name of a secret that the text begins with or that follows one of the units `?&#;` or white
-- space, and an `=` after it.
abbrev pub assignment : Regex
assignment =
    seq (optional (seq anything (cls (λ d. elem d (codes "?&#;") || is_space d))))
      (seq secret_name (seq (star (cls is_space)) (seq (unit 61) anything)))

abbrev pub scheme : Regex
scheme =
    seq (optional (seq (word (codes "http")) (seq (optional (unit 115)) (unit 58))))
      (word (codes "//"))

-- what is left of a text after the `n` units of a match at its start
abbrev pub after_scheme : Text → Text
after_scheme s =
    if test scheme (take 2 s)
    then drop 2 s
    else if test scheme (take 7 s)
    then drop 7 s
    else if test scheme (take 8 s)
    then drop 8 s
    else s

-- `split(/[/?#]/, 1)[0]`
abbrev pub authority : Text → Text
authority [] = []
authority (c ∷ s) = if elem c (codes "/?#") then [] else c ∷ authority s

unfoldable pub is_sensitive_text : Text → Bool
unfolding test is_space elem
is_sensitive_text text =
    if null text
    then false
    else if test assignment text
    then true
    else if not (test (seq scheme anything) text)
    then false
    else (elem 64 (authority (after_scheme text)) || elem 63 text || elem 35 text)

abbrev pub is_sensitive_metric_label_value : Value → Bool
is_sensitive_metric_label_value (string s) = is_sensitive_text (trim s)
is_sensitive_metric_label_value v = false
