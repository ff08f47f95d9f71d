-- ===== src/Form/Rules/Port.antt =====
-- The port rule on decimal texts, with or without other characters behind the digits.
use centos_info_collect.Base.{ℕ, ◌≤◌, ◌≡◌, ◌++◌, ◌↔◌, true, false, none, some, Text, length, arith}
use centos_info_collect.Base.Int.{pos}
use centos_info_collect.Base.Number.{
  AllDigits, NoDigitFirst, has_hex_prefix, decimal, parse_int-decimal,
}
use centos_info_collect.Form.Rules.{port_rule, port_in_range}

port_in_range_lem : (n : ℕ) → (port_in_range (some (pos n)) ≡ true) ↔ ((1 ≤ n) × (n ≤ 65535))
port_in_range_lem n = ground arith

-- For a text that begins with the decimal digits `d` and goes on with no digit, and is no
-- hexadecimal literal, the port rule passes exactly if the digits denote 1 to 65535; what stands
-- behind the digits is not looked at.
pub port_rule-decimal_iff :
    (d t : Text)
    → AllDigits d
    → 1 ≤ length d
    → NoDigitFirst t
    → has_hex_prefix (d ++ t) ≡ false
    → (port_rule (d ++ t) ≡ none) ↔ ((1 ≤ decimal d) × (decimal d ≤ 65535))
unfolding port_rule
port_rule-decimal_iff d t h l n x = rw (parse_int-decimal d t h l n x) (ground arith)
