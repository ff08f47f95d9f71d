-- ===== src/Form/Validator/Submit.antt =====
-- The submit listener of `FormValidator`.
use centos_info_collect.Base.{
  ℕ, zero, suc, ◌≡◌, refl, ◌↔◌, inl, inr, true, false, some, List, [], ◌∷◌, All, arith, Bool-cases,
}
use centos_info_collect.Form.Field.{Field}
use centos_info_collect.Form.Validator.{
  FormValidator, validate_field, validate_form, focus_first_error, on_submit,
}
use centos_info_collect.Form.Validator.Laws.{IsAccepted, validate_field_iff}

validate_form_iff :
    (v : FormValidator) (fs : List Field) → ((validate_form v fs).1 ≡ true) ↔ All (IsAccepted v) fs
unfolding validate_form
validate_form_iff v [] = (λ _. tt, λ _. refl)
validate_form_iff v (f ∷ fs) =
    let (to, from) = validate_field_iff v f in
    let (rest_to, rest_from) = validate_form_iff v fs in
    (λ h. (to (ground arith), rest_to (ground arith)), λ h. ground (arith, from h.0, rest_from h.1))

-- The form is sent on exactly if every field is accepted.
pub on_submit-prevented_iff :
    (v : FormValidator) (fs : List Field)
    → ((on_submit v fs).prevented ≡ false) ↔ All (IsAccepted v) fs
unfolding on_submit
on_submit-prevented_iff v fs =
    let (to, from) = validate_form_iff v fs in (λ h. to (ground arith), λ h. ground (arith, from h))

invalid-validate_field :
    (v : FormValidator) (f : Field)
    → ((validate_field v f).1 ≡ true → (validate_field v f).0.invalid ≡ false)
      × ((validate_field v f).1 ≡ false → (validate_field v f).0.invalid ≡ true)
unfolding validate_field
invalid-validate_field v f = ground arith

-- The index of the first field that is not accepted.
pub data FirstRefused (v : FormValidator) : List Field → ℕ → Type 0 where
  here : {f : Field} {fs : List Field} → ¬ IsAccepted v f → FirstRefused v (f ∷ fs) zero
  later :
      {f : Field} {fs : List Field} {i : ℕ}
      → IsAccepted v f
      → FirstRefused v fs i
      → FirstRefused v (f ∷ fs) (suc i)

focus-validate_form :
    (v : FormValidator) (fs : List Field)
    → (validate_form v fs).1 ≡ false
    → (i : ℕ) × (focus_first_error (validate_form v fs).0 ≡ some i) × FirstRefused v fs i
unfolding validate_form focus_first_error
focus-validate_form v [] h = cc
focus-validate_form v (f ∷ fs) h =
    let (clean, marked) = invalid-validate_field v f in
    let (to, from) = validate_field_iff v f in
    elim (Bool-cases (validate_field v f).1) [
      | inl ok ↦
          let (i, e, r) = focus-validate_form v fs (ground arith) in
          (suc i, rw (clean ok, e) refl, later (to ok) r)
      | inr bad ↦ (0, rw (marked bad) refl, here (λ a. cc (from a)))
    ]

-- A submission that is held back focuses the first field that is not accepted.
pub on_submit-focused :
    (v : FormValidator) (fs : List Field)
    → (on_submit v fs).prevented ≡ true
    → (i : ℕ) × ((on_submit v fs).focused ≡ some i) × FirstRefused v fs i
unfolding on_submit
on_submit-focused v fs h = elim (Bool-cases (validate_form v fs).1) [
  | inl ok ↦ cc (rw ok at h)
  | inr bad ↦ let (i, e, r) = focus-validate_form v fs bad in (i, rw bad e, r)
]
