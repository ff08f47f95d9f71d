-- ===== src/Metric/Credentials.antt =====
-- Which addresses `isSensitiveMetricLabelValue` of static/js/ops-vue-pages.js refuses.
use centos_info_collect.Base.{
  ◌≡◌, refl, Bool, true, false, not, ◌||◌, [], ◌∷◌, ◌++◌, Text, codes, trim, elem, All, ℕ_eq,
  if-elim, arith,
}
use centos_info_collect.Base.Regex.{seq, test, Matches, stop, again, one, pair, test_iff}
use centos_info_collect.Metric.Values.{string}
use centos_info_collect.Metric.Labels.{
  anything, assignment, scheme, after_scheme, authority, is_sensitive_text,
  is_sensitive_metric_label_value,
}

anything-Matches : (s : Text) → Matches anything s
anything-Matches [] = stop
anything-Matches (c ∷ s) = again (one {c = c} refl) (anything-Matches s) refl

abbrev https : Text
https = codes "https://"

scheme-Matches : Matches scheme https
unfolding test
scheme-Matches = (test_iff scheme https).0 refl

has_scheme : (s : Text) → test (seq scheme anything) (https ++ s) ≡ true
has_scheme s =
    (test_iff (seq scheme anything) (https ++ s)).1 (pair scheme-Matches (anything-Matches s) refl)

-- a text that ends no authority
abbrev pub IsInside : Text → Type 0
IsInside u = All (λ c. elem c (codes "/?#") ≡ false) u

authority-elem : (u h : Text) → IsInside u → elem 64 (authority (u ++ 64 ∷ h)) ≡ true
unfolding elem
authority-elem [] h i = refl
authority-elem (c ∷ u) h i = ground (arith, authority-elem u h)

after_scheme-https : (s : Text) → after_scheme (https ++ s) ≡ s
unfolding test
after_scheme-https s = refl

joined-true : (a b : Bool) → a ≡ true → (a || b) ≡ true
joined-true a b h = ground arith

is_sensitive_text-user :
    (u h : Text) → IsInside u → is_sensitive_text (https ++ (u ++ 64 ∷ h)) ≡ true
unfolding is_sensitive_text
is_sensitive_text-user u h i =
    let s : Text = u ++ 64 ∷ h in
    let t : Text = https ++ s in
    let a : elem 64 (authority (after_scheme t)) ≡ true =
      rw (after_scheme-https s) (authority-elem u h i) in
    if-elim (λ b. b ≡ true) (test assignment t) (λ y. refl)
      (λ n.
        if-elim (λ b. b ≡ true) (not (test (seq scheme anything) t))
          (λ y. ground (arith, has_scheme s, y))
          (λ k.
            let found : Bool = elem 64 (authority (after_scheme t)) in
            joined-true (found || elem 63 t) (elem 35 t) (joined-true found (elem 63 t) a)))

-- An address with `https` that has a user before its host is refused as the value of a label,
-- whatever the user, which may hold a password, and whatever follows, as long as no white space
-- stands at its ends.
pub is_sensitive_metric_label_value-user :
    (u h : Text)
    → IsInside u
    → trim (https ++ (u ++ 64 ∷ h)) ≡ https ++ (u ++ 64 ∷ h)
    → is_sensitive_metric_label_value (string (https ++ (u ++ 64 ∷ h))) ≡ true
unfolding is_sensitive_text
is_sensitive_metric_label_value-user u h i e = rw e (is_sensitive_text-user u h i)
