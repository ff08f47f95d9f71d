-- ===== src/Form/Rules/Email.antt =====
-- The e-mail pattern against a description of addresses.
use centos_info_collect.Base.{
  ◌≤◌, ◌≡◌, refl, true, false, [], ◌∷◌, ◌++◌, ◌↔◌, Text, length, All, arith, is_space, ◌≢◌,
}
use centos_info_collect.Base.Regex.{test_iff, Matches, cls, star, plus, one, pair, stop, again}
use centos_info_collect.Form.Rules.{is_valid_email, email_regex, address_char}

-- A nonempty text without white space and without `@`.
pub record IsAddressPart (s : Text) : Type 0 where
  pub nonempty : 1 ≤ length s
  pub plain : All (λ c. (is_space c ≡ false) × (c ≢ b'@')) s

-- A local part, `@`, and a domain with a dot inside.
pub IsEmail : Text → Type 0
IsEmail s =
    (user : Text) × (domain : Text) × (top : Text) × IsAddressPart user
    × IsAddressPart domain
    × IsAddressPart top
    × (s ≡ user ++ b'@' ∷ (domain ++ b'.' ∷ top))

abbrev AllPlain : Text → Type 0
AllPlain = All (λ c. (is_space c ≡ false) × (c ≢ b'@'))

star_sound : {s : Text} → Matches (star (cls address_char)) s → AllPlain s
star_sound stop = tt
star_sound (again {t = t} (one {c = c} h) d e) =
    let rest = star_sound d in rw e ((ground arith, ground arith), rest)

star_complete : (s : Text) → AllPlain s → Matches (star (cls address_char)) s
star_complete [] h = stop
star_complete (c ∷ s) h =
    let (space, at) = h.0 in again (one (ground arith)) (star_complete s h.1) refl

part_sound : {s : Text} → Matches (plus (cls address_char)) s → IsAddressPart s
part_sound (pair {t = t} (one {c = c} h) d e) =
    rw e (record { nonempty = omega arith; plain = ((ground arith, ground arith), star_sound d) })

part_complete : (s : Text) → IsAddressPart s → Matches (plus (cls address_char)) s
part_complete [] p = absurd (omega (arith, p.nonempty))
part_complete (c ∷ s) p =
    let (space, at) = p.plain.0 in pair (one (ground arith)) (star_complete s p.plain.1) refl

IsEmail-sound : {s : Text} → Matches email_regex s → IsEmail s
unfolding IsEmail
IsEmail-sound
      (pair {s = user} mu
        (pair (one {c = x} hx) (pair {s = domain} md (pair {t = top} (one {c = y} hy) mt ka) kb) kc)
        kd) =
    let ex : x ≡ 64 = ground arith in
    let ey : y ≡ 46 = ground arith in
    (
      user,
      domain,
      top,
      part_sound mu,
      part_sound md,
      part_sound mt,
      rw (kd, kc, kb, ka, ex, ey) refl,
    )

IsEmail-complete : {s : Text} → IsEmail s → Matches email_regex s
unfolding IsEmail
IsEmail-complete (user, domain, top, pu, pd, pt, e) =
    pair (part_complete user pu)
      (pair (one {c = b'@'} refl)
        (pair (part_complete domain pd) (pair (one {c = b'.'} refl) (part_complete top pt) refl)
          refl)
        refl)
      e

-- The pattern accepts exactly the texts that are a local part, `@` and a domain with a dot
-- inside, where the three parts are nonempty and hold no white space and no `@`.
pub is_valid_email_iff : (s : Text) → (is_valid_email s ≡ true) ↔ IsEmail s
unfolding is_valid_email
is_valid_email_iff s =
    let (to, from) = test_iff email_regex s in
    (λ h. IsEmail-sound (to h), λ q. from (IsEmail-complete q))
