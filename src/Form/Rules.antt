-- ===== src/Form/Rules.antt =====
-- The field rules of `FormValidator` in static/js/custom.js; the IP pattern is also that of
-- `validateServerData` in static/js/connection-test.js.
pub mod IpAddress
pub mod Port
pub mod Email
use centos_info_collect.Base.{
  ℕ, ◌≤◌, Bool, true, false, ◌&&◌, ◌||◌, Option, none, some, List, [], ◌∷◌, Text, codes, is_space,
  length, any, leb, nat_eq, not, if◌then◌else◌,
}
use centos_info_collect.Base.Int.{ℤ, pos, leb_ℤ}
use centos_info_collect.Base.Number.{is_digit, parse_int}
use centos_info_collect.Base.Regex.{Regex, cls, seq, alt, optional, plus, eps, test}

abbrev pub between : ℕ → ℕ → Regex
between lo hi = cls (λ c. leb lo c && leb c hi)

abbrev pub char : ℕ → Regex
char x = cls (λ c. nat_eq c x)

abbrev pub digit : Regex
digit = between b'0' b'9'

-- 25[0-5]|2[0-4][0-9]|[01]?[0-9][0-9]?
abbrev pub octet_regex : Regex
octet_regex = alt (seq (char b'2') (seq (char b'5') (between b'0' b'5'))) (
    alt (seq (char b'2') (seq (between b'0' b'4') digit))
      (seq (optional (between b'0' b'1')) (seq digit (optional digit))))

abbrev pub octet_dot : Regex
octet_dot = seq octet_regex (char b'.')

abbrev pub ip_regex : Regex
ip_regex = seq octet_dot (seq octet_dot (seq octet_dot octet_regex))

unfoldable pub is_ip_address : Text → Bool
unfolding test
is_ip_address s = test ip_regex s

-- [^\s@]
abbrev pub address_char : ℕ → Bool
address_char c = not (is_space c || nat_eq c b'@')

abbrev pub email_regex : Regex
email_regex =
    seq (plus (cls address_char))
      (seq (char b'@') (seq (plus (cls address_char)) (seq (char b'.') (plus (cls address_char)))))

unfoldable pub is_valid_email : Text → Bool
unfolding test is_space
is_valid_email s = test email_regex s

-- A rule answers `none` for JavaScript's `true`, or its message.
abbrev pub Rule : Type 0
Rule = Text → Option Text

abbrev pub ip_message : Text
ip_message = codes "IP地址格式不正确"

abbrev pub port_message : Text
port_message = codes "端口号必须在1-65535之间"

unfoldable pub ip_rule : Rule
unfolding is_ip_address
ip_rule value = if is_ip_address value then none else some ip_message

abbrev pub port_in_range : Option ℤ → Bool
port_in_range none = false
port_in_range (some n) = leb_ℤ (pos 1) n && leb_ℤ n (pos 65535)

unfoldable pub port_rule : Rule
unfolding parse_int
port_rule value = if port_in_range (parse_int value) then none else some port_message

abbrev pub is_lower : ℕ → Bool
is_lower c = leb b'a' c && leb c b'z'

abbrev pub is_upper : ℕ → Bool
is_upper c = leb b'A' c && leb c b'Z'

-- [!@#$%^&*(),.?":{}|<>]
abbrev pub is_special : ℕ → Bool
is_special c = any (nat_eq c) (codes "!@#$%^&*(),.?\":{}|<>")

unfoldable pub strong_password_rule : Rule
unfolding is_digit
strong_password_rule value =
    if not (leb 8 (length value))
    then some (codes "密码至少需要8个字符")
    else if not (any is_lower value)
    then some (codes "密码需要包含小写字母")
    else if not (any is_upper value)
    then some (codes "密码需要包含大写字母")
    else if not (any is_digit value)
    then some (codes "密码需要包含数字")
    else if not (any is_special value)
    then some (codes "密码需要包含特殊字符")
    else none
