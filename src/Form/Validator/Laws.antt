-- ===== src/Form/Validator/Laws.antt =====
-- When a field is accepted, and how it is marked.
use mathlib.Core.List.{tail}
use centos_info_collect.Base.{
  ◌≤◌, ◌≡◌, refl, ◌≢◌, ◌↔◌, ◌⊎◌, Bool, true, false, not, ◌&&◌, if◌then◌else◌, none, List, [], ◌∷◌,
  Text, ℕ_eq, list_eq, trim, get, length, All, arith,
}
use centos_info_collect.Form.Rules.{Rule, is_valid_email}
use centos_info_collect.Form.Field.{Field}
use centos_info_collect.Form.Validator.{
  FormValidator, rule_names, apply_rule, first_failure, is_email_field, refusal, validate_field,
}

-- Every rule that the field names and the validator knows passes.
abbrev pub PassesRules : List (Text × Rule) → List Text → Text → Type 0
PassesRules known names value = All (λ name. apply_rule (get name known) value ≡ none) names

first_failure-eq-none_iff :
    (known : List (Text × Rule)) (names : List Text) (value : Text)
    → (first_failure known names value ≡ none) ↔ PassesRules known names value
unfolding first_failure
first_failure-eq-none_iff known [] value = ground arith
first_failure-eq-none_iff known (name ∷ names) value =
    ground (arith, first_failure-eq-none_iff known names value)

-- An empty field that is not required, or a filled one that passes the test of its type and all
-- its rules.
abbrev pub IsAccepted : FormValidator → Field → Type 0
IsAccepted v f =
    ((trim f.value ≡ []) × (f.required ≡ false))
    ⊎ ((trim f.value ≢ [])
        × ((is_email_field f ≡ false) ⊎ (is_valid_email (trim f.value) ≡ true))
        × PassesRules v.rules (rule_names f) (trim f.value))

refusal-eq-none_iff : (v : FormValidator) (f : Field) → (refusal v f ≡ none) ↔ IsAccepted v f
unfolding refusal
refusal-eq-none_iff v f =
    ground (arith, first_failure-eq-none_iff v.rules (rule_names f) (trim f.value))

-- A field is accepted exactly if it is empty and not required, or filled and passes the test of
-- its type and every rule that it names and the validator knows.
pub validate_field_iff :
    (v : FormValidator) (f : Field) → ((validate_field v f).1 ≡ true) ↔ IsAccepted v f
unfolding validate_field
validate_field_iff v f = ground (arith, refusal-eq-none_iff v f)

-- The marks of a field agree with a verdict.
pub record IsMarked (f : Field) (ok : Bool) : Type 0 where
  pub class : f.invalid ≡ not ok
  pub alone : (f.valid && not ok) ≡ false
  pub messages : length f.errors ≡ (if ok then 0 else 1)

tail-eq-nil : (l : List Text) → length l ≤ 1 → tail l ≡ []
tail-eq-nil [] h = refl
tail-eq-nil (x ∷ []) h = refl
tail-eq-nil (x ∷ y ∷ l) h = absurd (omega arith)

-- Validation of a field with at most one message leaves no message and no class `is-invalid` if
-- the field is accepted, and exactly one message and that class alone if it is refused.
pub validate_field-IsMarked :
    (v : FormValidator) (f : Field)
    → length f.errors ≤ 1
    → IsMarked (validate_field v f).0 (validate_field v f).1
unfolding validate_field
validate_field-IsMarked v f h = ground (arith, tail-eq-nil f.errors h)
