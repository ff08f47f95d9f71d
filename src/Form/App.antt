-- ===== src/Form/App.antt =====
-- The form validation of the class `App` of static/js/custom.js, for the required fields of a form.
pub mod Laws
use mathlib.Core.List.{tail}
use centos_info_collect.Base.{
  ℕ, ◌≤◌, ◌≡◌, ◌↔◌, ◌⊎◌, ◌≢◌, Bool, true, false, not, ◌&&◌, Option, none, some, List, [], ◌∷◌, ◌++◌,
  Text, codes, trim, null, length, All, arith, if◌then◌else◌,
}
use centos_info_collect.Form.Rules.{is_valid_email}
use centos_info_collect.Form.Field.{Field}
use centos_info_collect.Form.Validator.{required_message, email_message, is_email_field}

-- It takes away a message and leaves the classes alone.
unfoldable pub clear_field_error : Field → Field
clear_field_error f = record f { errors = tail f.errors }

unfoldable pub show_field_error : Text → Field → Field
unfolding clear_field_error
show_field_error message f =
    let g = clear_field_error f in record g { errors = g.errors ++ message ∷ [] }

unfoldable pub refusal : Field → Option Text
refusal f =
    let value = trim f.value in
    if f.required && null value
    then some required_message
    else if is_email_field f && not (null value) && not (is_valid_email value)
    then some email_message
    else none

unfoldable pub validate_field : Field → Field × Bool
unfolding clear_field_error show_field_error
validate_field f = elim (refusal f) [
  | none ↦ (clear_field_error (record f { invalid = false; valid = true }), true)
  | some message ↦ (show_field_error message (record f { valid = false; invalid = true }), false)
]

-- The list holds the fields with the attribute `required`.
unfoldable pub validate_form : List Field → List Field × Bool
validate_form [] = ([], true)
validate_form (f ∷ fs) =
    let (f', ok) = validate_field f in let (fs', rest) = validate_form fs in (f' ∷ fs', ok && rest)

abbrev pub incomplete_message : Text
incomplete_message = codes "请填写所有必填字段"

-- the submit listener: the fields, whether the submission is prevented, and the notification shown
unfoldable pub on_submit : List Field → List Field × Bool × Option Text
on_submit fs =
    let (fs', ok) = validate_form fs in
    if ok then (fs', false, none) else (fs', true, some incomplete_message)
