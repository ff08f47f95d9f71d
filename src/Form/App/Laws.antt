-- ===== src/Form/App/Laws.antt =====
-- When the listener of `App` lets a form go.
use centos_info_collect.Base.{
  ◌≡◌, refl, ◌↔◌, ◌⊎◌, ◌≢◌, true, false, none, some, List, [], ◌∷◌, trim, All, arith,
}
use centos_info_collect.Form.Rules.{is_valid_email}
use centos_info_collect.Form.Field.{Field}
use centos_info_collect.Form.Validator.{is_email_field}
use centos_info_collect.Form.App.{
  validate_field, refusal, validate_form, on_submit, incomplete_message,
}

-- A field with the attribute `required` that is filled, with an address if it is an e-mail field.
abbrev pub IsComplete : Field → Type 0
IsComplete f =
    ((f.required ≡ false) ⊎ (trim f.value ≢ []))
    × ((trim f.value ≡ []) ⊎ (is_email_field f ≡ false) ⊎ (is_valid_email (trim f.value) ≡ true))

refusal-eq-none_iff : (f : Field) → (refusal f ≡ none) ↔ IsComplete f
unfolding refusal
refusal-eq-none_iff f = ground arith

validate_form_iff : (fs : List Field) → ((validate_form fs).1 ≡ true) ↔ All IsComplete fs
unfolding validate_form validate_field
validate_form_iff [] = (λ _. tt, λ _. refl)
validate_form_iff (f ∷ fs) =
    let (to, from) = refusal-eq-none_iff f in
    let (rest_to, rest_from) = validate_form_iff fs in
    (λ h. (to (ground arith), rest_to (ground arith)), λ h. ground (arith, from h.0, rest_from h.1))

-- The submission is prevented exactly if some field is not complete, and the user is notified
-- exactly if it is prevented.
pub on_submit_iff :
    (fs : List Field)
    → (((on_submit fs).1 ≡ false) ↔ All IsComplete fs)
      × (((on_submit fs).1 ≡ true) ↔ ((on_submit fs).2 ≡ some incomplete_message))
unfolding on_submit
on_submit_iff fs =
    let (to, from) = validate_form_iff fs in
    ((λ h. to (ground arith), λ h. ground (arith, from h)), ground arith)
