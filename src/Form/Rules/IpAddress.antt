-- ===== src/Form/Rules/IpAddress.antt =====
-- The IP pattern against a description of dotted quads.
use centos_info_collect.Base.{
  ℕ, ◌+◌, ◌-◌, ◌*◌, ◌≤◌, ◌≡◌, refl, append_assoc, true, [], ◌∷◌, ◌++◌, ◌↔◌, inl, inr, Text,
  Bool-cases, leb, length, arith,
}
use centos_info_collect.Base.Number.{is_digit, AllDigits, decimal}
use centos_info_collect.Base.Regex.{test_iff, Matches, blank, one, pair, first, second}
use centos_info_collect.Form.Rules.{is_ip_address, ip_regex, octet_regex}

-- One to three decimal digits that denote a number up to 255.
pub record IsOctet (s : Text) : Type 0 where
  pub digits : AllDigits s
  pub nonempty : 1 ≤ length s
  pub short : length s ≤ 3
  pub small : decimal s ≤ 255

-- Four octets joined by dots.
pub IsDottedQuad : Text → Type 0
IsDottedQuad s =
    (a : Text) × (b : Text) × (c : Text) × (d : Text) × IsOctet a
    × IsOctet b
    × IsOctet c
    × IsOctet d
    × (s ≡ a ++ b'.' ∷ (b ++ b'.' ∷ (c ++ b'.' ∷ d)))

three_digits :
    {s : Text} (a b c : ℕ)
    → s ≡ a ∷ b ∷ c ∷ []
    → is_digit a ≡ true
    → is_digit b ≡ true
    → is_digit c ≡ true
    → (a - 48) * 100 + (b - 48) * 10 + (c - 48) ≤ 255
    → IsOctet s
unfolding decimal
three_digits a b c e x y z h = rw e (record {
  digits = (x, (y, (z, tt)));
  nonempty = omega arith;
  short = omega arith;
  small = omega arith;
})

two_digits :
    {s : Text} (a b : ℕ) → s ≡ a ∷ b ∷ [] → is_digit a ≡ true → is_digit b ≡ true → IsOctet s
unfolding decimal is_digit
two_digits a b e x y = rw e (record {
  digits = (x, (y, tt));
  nonempty = omega arith;
  short = omega arith;
  small = ground arith;
})

one_digit : {s : Text} (a : ℕ) → s ≡ a ∷ [] → is_digit a ≡ true → IsOctet s
unfolding decimal is_digit
one_digit a e x =
    rw e (record {
      digits = (x, tt);
      nonempty = omega arith;
      short = omega arith;
      small = ground arith;
    })

IsOctet-sound : {s : Text} → Matches octet_regex s → IsOctet s
unfolding is_digit
IsOctet-sound (first (pair (one {c = a} x) (pair (one {c = b} y) (one {c = c} z) k) h)) =
    three_digits a b c (ground arith) (ground arith) (ground arith) (ground arith) (ground arith)
IsOctet-sound (second (first (pair (one {c = a} x) (pair (one {c = b} y) (one {c = c} z) k) h))) =
    three_digits a b c (ground arith) (ground arith) (ground arith) (ground arith) (ground arith)
IsOctet-sound
      (second (
        second (pair (first (one {c = a} x)) (pair (one {c = b} y) (first (one {c = c} z)) k) h))) =
    three_digits a b c (ground arith) (ground arith) (ground arith) (ground arith) (ground arith)
IsOctet-sound
      (second (second (pair (first (one {c = a} x)) (pair (one {c = b} y) (second blank) k) h))) =
    two_digits a b (ground arith) (ground arith) (ground arith)
IsOctet-sound
      (second (second (pair (second blank) (pair (one {c = b} y) (first (one {c = c} z)) k) h))) =
    two_digits b c (ground arith) (ground arith) (ground arith)
IsOctet-sound (second (second (pair (second blank) (pair (one {c = b} y) (second blank) k) h))) =
    one_digit b (ground arith) (ground arith)

short_octet : {s : Text} {a : ℕ} → s ≡ a ∷ [] → is_digit a ≡ true → Matches octet_regex s
unfolding is_digit
short_octet e x =
    rw e (second (second (pair (second blank) (pair (one x) (second blank) refl) refl)))

middle_octet :
    {s : Text} {a b : ℕ}
    → s ≡ a ∷ b ∷ []
    → is_digit a ≡ true
    → is_digit b ≡ true
    → Matches octet_regex s
unfolding is_digit
middle_octet e x y =
    rw e (second (second (pair (second blank) (pair (one x) (first (one y)) refl) refl)))

long_octet :
    (a b c : ℕ)
    → is_digit a ≡ true
    → is_digit b ≡ true
    → is_digit c ≡ true
    → decimal (a ∷ b ∷ c ∷ []) ≤ 255
    → Matches octet_regex (a ∷ b ∷ c ∷ [])
unfolding is_digit decimal
long_octet a b c x y z h = elim (Bool-cases (leb a b'1')) [
  | inl low ↦
      second (second (pair (first (one (ground arith))) (pair (one y) (first (one z)) refl) refl))
  | inr high ↦ elim (Bool-cases (leb b b'4')) [
    | inl four ↦
        second (first (pair (one (ground arith)) (pair (one (ground arith)) (one z) refl) refl))
    | inr five ↦
        first (pair (one (ground arith)) (pair (one (ground arith)) (one (ground arith)) refl) refl)
  ]
]

IsOctet-complete : (s : Text) → IsOctet s → Matches octet_regex s
IsOctet-complete [] o = absurd (omega (arith, o.nonempty))
IsOctet-complete (a ∷ []) o = short_octet refl o.digits.0
IsOctet-complete (a ∷ b ∷ []) o = middle_octet refl o.digits.0 o.digits.1.0
IsOctet-complete (a ∷ b ∷ c ∷ []) o =
    long_octet a b c o.digits.0 o.digits.1.0 o.digits.1.1.0 o.small
IsOctet-complete (a ∷ b ∷ c ∷ d ∷ s) o = absurd (omega (arith, o.short))

IsDottedQuad-sound : {s : Text} → Matches ip_regex s → IsDottedQuad s
unfolding IsDottedQuad
IsDottedQuad-sound
      (pair
        (pair {s = a} ma (one {c = x} hx) ka)
        (pair
          (pair {s = b} mb (one {c = y} hy) kb)
          (pair {t = d} (pair {s = c} mc (one {c = z} hz) kc) md kd)
          ke)
        kf) =
    let ex : x ≡ 46 = ground arith in
    let ey : y ≡ 46 = ground arith in
    let ez : z ≡ 46 = ground arith in
    (
      a,
      b,
      c,
      d,
      IsOctet-sound ma,
      IsOctet-sound mb,
      IsOctet-sound mc,
      IsOctet-sound md,
      rw (kf, ke, kd, ka, kb, kc, ex, ey, ez) (simp append_assoc),
    )

IsDottedQuad-complete : {s : Text} → IsDottedQuad s → Matches ip_regex s
unfolding IsDottedQuad
IsDottedQuad-complete (a, b, c, d, oa, ob, oc, od, e) =
    pair (pair (IsOctet-complete a oa) (one {c = b'.'} refl) refl)
      (pair (pair (IsOctet-complete b ob) (one {c = b'.'} refl) refl)
        (pair (pair (IsOctet-complete c oc) (one {c = b'.'} refl) refl) (IsOctet-complete d od)
          refl)
        refl)
      (rw e (simp append_assoc))

-- The pattern accepts exactly the texts that are four octets joined by dots, where an octet is
-- one to three decimal digits that denote a number up to 255.
pub is_ip_address_iff : (s : Text) → (is_ip_address s ≡ true) ↔ IsDottedQuad s
unfolding is_ip_address
is_ip_address_iff s =
    let (to, from) = test_iff ip_regex s in
    (λ h. IsDottedQuad-sound (to h), λ q. from (IsDottedQuad-complete q))
