-- ===== src/Metric/Decimals.antt =====
-- `String(n)` for an integer of JavaScript that is not negative.
use centos_info_collect.Base.{
  ℕ, zero, suc, ◌+◌, ◌/◌, ◌%◌, ◌<◌, ◌≡◌, false, [], ◌∷◌, Text, null, ltb, if◌then◌else◌, arith,
}
use centos_info_collect.Base.Number.{decimal, decimal_from}

-- the digits of `n` before those of `acc`; `fuel` bounds their number
unfoldable pub digits_before : ℕ → ℕ → Text → Text
digits_before zero n acc = acc
digits_before (suc fuel) n acc =
    let rest = digits_before fuel (n / 10) ((48 + n % 10) ∷ acc) in
    if ltb n 10 then (48 + n) ∷ acc else rest

unfoldable pub to_text : ℕ → Text
unfolding digits_before
to_text n = digits_before (suc n) n []

digits_before-decimal_from :
    (fuel n : ℕ) (acc : Text)
    → n < fuel
    → decimal_from 0 (digits_before fuel n acc) ≡ decimal_from n acc
unfolding digits_before decimal_from
digits_before-decimal_from zero n acc h = ground arith
digits_before-decimal_from (suc fuel) n acc h =
    ground (arith, digits_before-decimal_from fuel (n / 10) ((48 + n % 10) ∷ acc))

-- The digits of a number denote it.
pub decimal-to_text : (n : ℕ) → decimal (to_text n) ≡ n
unfolding to_text decimal decimal_from
decimal-to_text n = digits_before-decimal_from (suc n) n [] (ground arith)

digits_before-null :
    (fuel n : ℕ) (acc : Text) → null acc ≡ false → null (digits_before fuel n acc) ≡ false
unfolding digits_before
digits_before-null zero n acc h = h
digits_before-null (suc fuel) n acc h =
    ground (arith, digits_before-null fuel (n / 10) ((48 + n % 10) ∷ acc))

-- A number has a digit.
pub to_text-null : (n : ℕ) → null (to_text n) ≡ false
unfolding to_text digits_before
to_text-null n = ground (arith, digits_before-null n (n / 10) ((48 + n % 10) ∷ []))
