-- ===== src/Metric/Secrets.antt =====
-- Which keys `isSensitiveMetricLabelKey` of static/js/ops-vue-pages.js refuses.
use centos_info_collect.Base.{
  ℕ, ◌≡◌, refl, Bool, true, false, List, [], ◌∷◌, ◌++◌, append-nil, Text, reverse, null, elem, any,
  starts_with, split, All, All-append, ℕ_eq, list_eq, list_beq_iff, beq_self, arith,
}
use mathlib.Core.List.{reverse-append, reverse-reverse}
use centos_info_collect.Metric.Texts.{to_lower_case}
use centos_info_collect.Metric.Labels.{
  is_lower_or_digit, break_words, join_others, strip_start, strip, sensitive_parts, ends_with,
  names_secret, normalized_key, is_sensitive_metric_label_key,
}

-- lower-case letters and digits
abbrev pub IsPlain : Text → Type 0
IsPlain s = All (λ c. is_lower_or_digit c ≡ true) s

break_words-IsPlain : (s : Text) → IsPlain s → break_words s ≡ s
unfolding break_words
break_words-IsPlain [] h = refl
break_words-IsPlain (c ∷ []) h = refl
break_words-IsPlain (c ∷ d ∷ s) h = ground (arith, break_words-IsPlain (d ∷ s))

to_lower_case-IsPlain :
    (lower_other : ℕ → Text) (s : Text) → IsPlain s → to_lower_case lower_other s ≡ s
to_lower_case-IsPlain lower_other [] h = refl
to_lower_case-IsPlain lower_other (c ∷ s) h = ground (arith, to_lower_case-IsPlain lower_other s)

join_others-IsPlain : (s : Text) → IsPlain s → join_others false s ≡ s
unfolding join_others
join_others-IsPlain [] h = refl
join_others-IsPlain (c ∷ s) h = ground (arith, join_others-IsPlain s)

strip_start-IsPlain : (s : Text) → IsPlain s → strip_start s ≡ s
strip_start-IsPlain [] h = refl
strip_start-IsPlain (c ∷ s) h = ground arith

split-IsPlain : (s : Text) → IsPlain s → split 95 s ≡ s ∷ []
unfolding split
split-IsPlain [] h = refl
split-IsPlain (c ∷ s) h = ground (arith, split-IsPlain s)

reverse-IsPlain : (s : Text) → IsPlain s → IsPlain (reverse s)
reverse-IsPlain [] h = tt
reverse-IsPlain (c ∷ s) (a, h) = rw (reverse-append (c ∷ []) s) (
    All-append (λ c. is_lower_or_digit c ≡ true) (reverse s) (c ∷ []) (reverse-IsPlain s h) (a, tt))

strip-IsPlain : (s : Text) → IsPlain s → strip s ≡ s
strip-IsPlain s h = ground (
  arith,
  strip_start-IsPlain s,
  strip_start-IsPlain (reverse s) (reverse-IsPlain s h),
  reverse-reverse s,
)

normalized_key-IsPlain :
    (lower_other : ℕ → Text) (s : Text) → IsPlain s → normalized_key lower_other s ≡ s
unfolding normalized_key
normalized_key-IsPlain lower_other s h =
    rw (break_words-IsPlain s h, to_lower_case-IsPlain lower_other s h, join_others-IsPlain s h)
      (strip-IsPlain s h)

starts_with-append : (p s : Text) → starts_with p (p ++ s) ≡ true
starts_with-append [] s = refl
starts_with-append (c ∷ p) s = ground (arith, starts_with-append p s, beq_self c)

ends_with-append : (s p : Text) → ends_with p (s ++ p) ≡ true
ends_with-append s p = rw (reverse-append s p) (starts_with-append (reverse p) (reverse s))

any-elem :
    (f : Text → Bool) (p : Text) (ps : List Text) → elem p ps ≡ true → f p ≡ true → any f ps ≡ true
unfolding elem
any-elem f p [] e h = ground arith
any-elem f p (q ∷ ps) e h = ground (arith, any-elem f p ps, list_beq_iff q p)

names_secret-suffix :
    (ps : List Text) (s p : Text)
    → IsPlain (s ++ p)
    → elem p ps ≡ true
    → names_secret ps (s ++ p) ≡ true
unfolding names_secret
names_secret-suffix ps s p h e =
    let f : any (λ w. ends_with w (s ++ p)) ps ≡ true =
      any-elem (λ w. ends_with w (s ++ p)) p ps e (ends_with-append s p) in
    rw (split-IsPlain (s ++ p) h, append-nil (s ++ p)) (ground (arith, f))

-- A key of lower-case letters and digits that ends in one of the sensitive words is refused,
-- whatever stands before the word.
pub is_sensitive_metric_label_key-suffix :
    (lower_other : ℕ → Text) (s p : Text)
    → IsPlain (s ++ p)
    → null (s ++ p) ≡ false
    → elem p sensitive_parts ≡ true
    → is_sensitive_metric_label_key lower_other (s ++ p) ≡ true
unfolding is_sensitive_metric_label_key
is_sensitive_metric_label_key-suffix lower_other s p h n e =
    rw (normalized_key-IsPlain lower_other (s ++ p) h, n)
      (names_secret-suffix sensitive_parts s p h e)
