-- ===== src/Form/Tests.antt =====
-- The form validators at concrete inputs.
use centos_info_collect.Base.{
  codes, ◌≡◌, ◌≤◌, ◌↔◌, refl, Bool, true, false, Text, none, [], ◌∷◌, All, ◌++◌, arith,
}
use centos_info_collect.Base.Number.{decimal, has_hex_prefix, is_digit}
use centos_info_collect.Form.Rules.{is_ip_address, is_valid_email, port_rule}
use centos_info_collect.Form.Rules.IpAddress.{IsDottedQuad, is_ip_address_iff}
use centos_info_collect.Form.Rules.Port.{port_rule-decimal_iff}
use centos_info_collect.Form.Rules.Email.{IsEmail, is_valid_email_iff}
use centos_info_collect.Form.Field.{Field}
use centos_info_collect.Form.Validator.{FormValidator, new, validate_field, on_submit}
use centos_info_collect.Form.Validator.Laws.{IsAccepted, IsMarked, validate_field-IsMarked}
use centos_info_collect.Form.Validator.Submit.{on_submit-prevented_iff}

ip_accepts : is_ip_address (codes "10.0.0.255") ≡ true
unfolding is_ip_address
ip_accepts = refl

is_ip_address_iff_example :
    (is_ip_address (codes "10.0.0.255") ≡ true) ↔ IsDottedQuad (codes "10.0.0.255")
is_ip_address_iff_example = is_ip_address_iff (codes "10.0.0.255")

is_valid_email_iff_example :
    (is_valid_email (codes "ops@example.org") ≡ true) ↔ IsEmail (codes "ops@example.org")
is_valid_email_iff_example = is_valid_email_iff (codes "ops@example.org")

-- The digits of 443 before a text that is not looked at.
port_rule-decimal_iff_example :
    (port_rule (codes "443" ++ codes "abc") ≡ none)
    ↔ ((1 ≤ decimal (codes "443")) × (decimal (codes "443") ≤ 65535))
unfolding has_hex_prefix is_digit
port_rule-decimal_iff_example =
    port_rule-decimal_iff (codes "443") (codes "abc") (refl, (refl, (refl, tt))) (omega arith) refl
      refl

abbrev plain_field : Text → Bool → Field
plain_field value required = record {
  value = value;
  required = required;
  type = codes "email";
  rules = none;
  valid = false;
  invalid = false;
  errors = [];
}

abbrev validator : FormValidator
validator =
    new (record { validate_on_blur = true; validate_on_input = false; show_success_state = true })

abbrev blank_field : Field
blank_field = plain_field [] true

abbrev good_field : Field
good_field = plain_field (codes "ops@example.org") true

validate_field-IsMarked_example :
    IsMarked (validate_field validator blank_field).0 (validate_field validator blank_field).1
validate_field-IsMarked_example = validate_field-IsMarked validator blank_field (omega arith)

on_submit-prevented_iff_example :
    ((on_submit validator (good_field ∷ blank_field ∷ [])).prevented ≡ false)
    ↔ All (IsAccepted validator) (good_field ∷ blank_field ∷ [])
on_submit-prevented_iff_example = on_submit-prevented_iff validator (good_field ∷ blank_field ∷ [])
