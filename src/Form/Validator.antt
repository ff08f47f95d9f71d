-- ===== src/Form/Validator.antt =====
-- The class `FormValidator` of static/js/custom.js.
pub mod Laws
pub mod Submit
use mathlib.Core.List.{tail}
use centos_info_collect.Base.{
  ℕ, zero, suc, Bool, true, false, not, ◌&&◌, Option, none, some, List, [], ◌∷◌, ◌++◌, Text, codes,
  trim, split, get, insert, ◌==◌, ℕ_eq, list_eq, null, if◌then◌else◌, map,
}
use centos_info_collect.Form.Rules.{Rule, is_valid_email, ip_rule, port_rule, strong_password_rule}
use centos_info_collect.Form.Field.{Field}

pub record Options : Type 0 where
  pub validate_on_blur : Bool
  pub validate_on_input : Bool
  pub show_success_state : Bool

pub record FormValidator : Type 0 where
  pub options : Options
  pub rules : List (Text × Rule)

unfoldable pub add_rule : Text → Rule → FormValidator → FormValidator
add_rule name validator v = record v { rules = insert name validator v.rules }

unfoldable pub setup_custom_rules : FormValidator → FormValidator
unfolding add_rule ip_rule port_rule strong_password_rule
setup_custom_rules v =
    add_rule (codes "strong-password") strong_password_rule
      (add_rule (codes "port") port_rule (add_rule (codes "ip") ip_rule v))

-- the constructor, without the listeners, which are `on_blur`, `on_input` and `on_submit`
unfoldable pub new : Options → FormValidator
unfolding setup_custom_rules insert
new options = setup_custom_rules (record { options = options; rules = [] })

unfoldable pub clear_field_error : Field → Field
clear_field_error f = record f { invalid = false; valid = false; errors = tail f.errors }

unfoldable pub show_field_error : Text → Field → Field
unfolding clear_field_error
show_field_error message f =
    let g = clear_field_error f in
    record g { valid = false; invalid = true; errors = g.errors ++ message ∷ [] }

abbrev pub required_message : Text
required_message = codes "此字段为必填项"

abbrev pub email_message : Text
email_message = codes "请输入有效的邮箱地址"

abbrev pub rule_names : Field → List Text
rule_names f = elim f.rules [ none ↦ [] | some text ↦ split b'|' text ]

abbrev pub apply_rule : Option Rule → Text → Option Text
apply_rule none value = none
apply_rule (some rule) value = rule value

-- the loop over the names in `data-rules`: the first message
unfoldable pub first_failure : List (Text × Rule) → List Text → Text → Option Text
first_failure known [] value = none
first_failure known (name ∷ names) value =
    let rest = first_failure known names value in
    elim (apply_rule (get name known) value) [ some message ↦ some message | none ↦ rest ]

abbrev pub is_email_field : Field → Bool
is_email_field f = f.type == codes "email"

-- the message with which a field is refused, after the checks in the order of the source
unfoldable pub refusal : FormValidator → Field → Option Text
refusal v f =
    let value = trim f.value in
    if f.required && null value
    then some required_message
    else if null value
    then none
    else if is_email_field f && not (is_valid_email value)
    then some email_message
    else first_failure v.rules (rule_names f) value

abbrev pub mark_valid : FormValidator → Field → Field
mark_valid v f =
    if null (trim f.value)
    then f
    else if v.options.show_success_state
    then record f { valid = true }
    else f

unfoldable pub validate_field : FormValidator → Field → Field × Bool
unfolding clear_field_error show_field_error
validate_field v f = elim (refusal v f) [
  | some message ↦ (show_field_error message f, false)
  | none ↦ (mark_valid v (clear_field_error f), true)
]

unfoldable pub validate_form : FormValidator → List Field → List Field × Bool
validate_form v [] = ([], true)
validate_form v (f ∷ fs) =
    let (f', ok) = validate_field v f in
    let (fs', rest) = validate_form v fs in (f' ∷ fs', ok && rest)

-- the index of the first field with the class `is-invalid`, which is focused
unfoldable pub focus_first_error : List Field → Option ℕ
focus_first_error [] = none
focus_first_error (f ∷ fs) =
    let rest = focus_first_error fs in
    if f.invalid then some 0 else elim rest [ none ↦ none | some i ↦ some (suc i) ]

pub record Submission : Type 0 where
  pub fields : List Field
  pub prevented : Bool
  pub focused : Option ℕ

-- the listeners
unfoldable pub on_submit : FormValidator → List Field → Submission
on_submit v fs =
    let (fs', ok) = validate_form v fs in
    if ok
    then record { fields = fs'; prevented = false; focused = none }
    else record { fields = fs'; prevented = true; focused = focus_first_error fs' }

unfoldable pub on_blur : FormValidator → Field → Field
on_blur v f = if v.options.validate_on_blur then (validate_field v f).0 else f

-- `typed` is the value of the field after the user's input
unfoldable pub on_input : FormValidator → Text → Field → Field
on_input v typed f =
    let g = record f { value = typed } in
    if v.options.validate_on_input
    then (if null (trim typed)
        then clear_field_error g
        else (validate_field v (clear_field_error g)).0)
    else g
