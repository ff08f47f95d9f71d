-- ===== src/Base/Number.antt =====
-- Decimal digits, and `parseInt` with no radix.
use centos_info_collect.Base.Tests.{ltb, leb, nat_eq, if◌then◌else◌}
use centos_info_collect.Base.Lists.{length, All}
use centos_info_collect.Base.Strings.{Text, trim_start, is_space, trim_start_of_NoSpaceFirst}
use centos_info_collect.Base.Int.{ℤ, pos, sub_ℕ}
use Prim.Native.Nat.{ℕ, ◌+◌, ◌-◌, ◌*◌, ◌≤◌}
use mathlib.Core.Path.{◌≡◌, refl, ap, ◌∙◌}
use mathlib.Core.Bool.{Bool, true, false, ◌&&◌, ◌||◌}
use mathlib.Core.Option.{Option, none, some}
use mathlib.Core.List.{[], ◌∷◌, ◌++◌}
use native.Mathlib.Omega.{arith}

unfoldable pub is_digit : ℕ → Bool
is_digit c = leb 48 c && leb c 57

abbrev pub AllDigits : Text → Type 0
AllDigits = All (λ c. is_digit c ≡ true)

-- the number that a run of decimal digits denotes, after the digits of `acc`
unfoldable pub decimal_from : ℕ → Text → ℕ
decimal_from acc [] = acc
decimal_from acc (c ∷ s) = decimal_from (acc * 10 + (c - 48)) s

unfoldable pub decimal : Text → ℕ
unfolding decimal_from
decimal s = decimal_from 0 s

-- the value of a digit in bases up to 36
unfoldable pub digit_value : ℕ → ℕ
digit_value c =
    if leb 48 c && leb c 57
    then c - 48
    else if leb 97 c && leb c 122
    then c - 87
    else if leb 65 c && leb c 90
    then c - 55
    else 36

unfoldable pub is_digit_of : ℕ → ℕ → Bool
unfolding digit_value
is_digit_of radix c = ltb (digit_value c) radix

-- the longest run of digits; what follows it is ignored
unfoldable pub read_digits : ℕ → ℕ → Text → ℕ
unfolding digit_value is_digit_of
read_digits radix acc [] = acc
read_digits radix acc (c ∷ s) =
    let rest = read_digits radix (acc * radix + digit_value c) s in
    if is_digit_of radix c then rest else acc

unfoldable pub read_unsigned : ℕ → Text → Option ℕ
unfolding is_digit_of read_digits
read_unsigned radix [] = none
read_unsigned radix (c ∷ s) =
    if is_digit_of radix c then some (read_digits radix 0 (c ∷ s)) else none

unfoldable pub has_hex_prefix : Text → Bool
has_hex_prefix (a ∷ b ∷ s) = nat_eq a 48 && (nat_eq b 120 || nat_eq b 88)
has_hex_prefix _ = false

abbrev pub after_two : Text → Text
after_two (a ∷ b ∷ s) = s
after_two s = []

unfoldable pub read_radix : Text → Option ℕ
unfolding read_unsigned has_hex_prefix
read_radix s = if has_hex_prefix s then read_unsigned 16 (after_two s) else read_unsigned 10 s

abbrev pub map_number : (ℕ → ℤ) → Option ℕ → Option ℤ
map_number f none = none
map_number f (some n) = some (f n)

unfoldable pub read_signed : Text → Option ℤ
unfolding read_radix
read_signed [] = none
read_signed (c ∷ s) =
    if nat_eq c 45
    then map_number (sub_ℕ 0) (read_radix s)
    else if nat_eq c 43
    then map_number pos (read_radix s)
    else map_number pos (read_radix (c ∷ s))

-- `none` is NaN.
unfoldable pub parse_int : Text → Option ℤ
unfolding read_signed trim_start is_space
parse_int s = read_signed (trim_start s)

abbrev pub NoDigitFirst : Text → Type 0
NoDigitFirst [] = Unit
NoDigitFirst (c ∷ _) = is_digit c ≡ false

digit_value-digit :
    (c : ℕ) → is_digit c ≡ true → (is_digit_of 10 c ≡ true) × (digit_value c ≡ c - 48)
unfolding is_digit_of is_digit
digit_value-digit c h = ground arith

digit_value-other : (c : ℕ) → is_digit c ≡ false → is_digit_of 10 c ≡ false
unfolding is_digit_of is_digit
digit_value-other c h = ground arith

-- A run of digits is read up to the first other character.
read_digits-decimal :
    (acc : ℕ) (d t : Text)
    → AllDigits d
    → NoDigitFirst t
    → read_digits 10 acc (d ++ t) ≡ decimal_from acc d
unfolding read_digits decimal_from
read_digits-decimal acc [] [] h n = refl
read_digits-decimal acc [] (c ∷ t) h n = rw (digit_value-other c n)
read_digits-decimal acc (c ∷ d) t h n =
    let (p, q) = digit_value-digit c h.0 in
    rw (p, q) (read_digits-decimal (acc * 10 + (c - 48)) d t h.1 n)

not-space_of_digit : (c : ℕ) → is_digit c ≡ true → is_space c ≡ false
unfolding is_digit is_space
not-space_of_digit c h = ground arith

read_unsigned-decimal :
    (c : ℕ) (d t : Text)
    → AllDigits (c ∷ d)
    → NoDigitFirst t
    → read_unsigned 10 (c ∷ (d ++ t)) ≡ some (decimal (c ∷ d))
unfolding read_unsigned decimal
read_unsigned-decimal c d t h n =
    let (p, q) = digit_value-digit c h.0 in rw (p, q, read_digits-decimal (0 + (c - 48)) d t h.1 n)

read_signed-digit :
    (c : ℕ) (s : Text)
    → is_digit c ≡ true
    → has_hex_prefix (c ∷ s) ≡ false
    → read_signed (c ∷ s) ≡ map_number pos (read_unsigned 10 (c ∷ s))
unfolding read_signed is_digit
read_signed-digit c s h x = ground arith

-- `parseInt` of a nonempty run of decimal digits, whatever stands behind it.
pub parse_int-decimal :
    (d t : Text)
    → AllDigits d
    → 1 ≤ length d
    → NoDigitFirst t
    → has_hex_prefix (d ++ t) ≡ false
    → parse_int (d ++ t) ≡ some (pos (decimal d))
unfolding parse_int
parse_int-decimal [] t h l n x = absurd (omega arith)
parse_int-decimal (c ∷ d) t h l n x =
    rw (trim_start_of_NoSpaceFirst (c ∷ (d ++ t)) (not-space_of_digit c h.0))
      (read_signed-digit c (d ++ t) h.0 x ∙ ap (map_number pos) (read_unsigned-decimal c d t h n))
