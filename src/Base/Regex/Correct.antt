-- ===== src/Base/Regex/Correct.antt =====
-- The derivatives decide `Matches`.
use mathlib.Core.Path.{◌≡◌, refl, sym, ap, ◌∙◌, subst}
use mathlib.Core.Bool.{true}
use mathlib.Core.Logic.{◌↔◌, inl, inr}
use mathlib.Core.List.{[], ◌∷◌, ◌++◌}
use Prim.Native.Nat.{ℕ}
use native.Mathlib.Omega.{arith}
use centos_info_collect.Base.Tests.{Bool-cases}
use centos_info_collect.Base.Strings.{Text}
use centos_info_collect.Base.Regex.Defs.{
  Regex, never, eps, cls, seq, alt, star, nullable, deriv, test, Matches, blank, one, pair, first,
  second, stop, again,
}
use centos_info_collect.Base.Regex.Inversion.{eps_inv, seq_inv, alt_inv}

nullable_sound : (r : Regex) → nullable r ≡ true → Matches r []
unfolding nullable
nullable_sound never h = cc
nullable_sound eps h = blank
nullable_sound (cls p) h = cc
nullable_sound (seq r q) h =
    pair (nullable_sound r (ground arith)) (nullable_sound q (ground arith)) refl
nullable_sound (alt r q) h = elim (Bool-cases (nullable r)) [
  | inl e ↦ first (nullable_sound r e)
  | inr e ↦ second (nullable_sound q (ground arith))
]
nullable_sound (star r) h = stop

append-eq-nil : (s t : Text) → [] ≡ s ++ t → (s ≡ []) × (t ≡ [])
append-eq-nil [] t h = (refl, sym h)
append-eq-nil (c ∷ s) t h = cc

nullable_complete : {r : Regex} {u : Text} → Matches r u → u ≡ [] → nullable r ≡ true
unfolding nullable
nullable_complete blank e = refl
nullable_complete (one h) e = cc
nullable_complete (pair {s = s} {t = t} d k h) e =
    let (p, q) = append-eq-nil s t (ground arith) in
    rw (nullable_complete d p, nullable_complete k q)
nullable_complete (first d) e = rw (nullable_complete d e)
nullable_complete (second {r = r} d) e = ground (arith, nullable_complete d e)
nullable_complete stop e = refl
nullable_complete (again d k h) e = cc

deriv_sound : (c : ℕ) (r : Regex) {s : Text} → Matches (deriv c r) s → Matches r (c ∷ s)
unfolding deriv
deriv_sound c never d = elim d [ ]
deriv_sound c eps d = elim d [ ]
deriv_sound c (cls p) d = elim (Bool-cases (p c)) [
  | inl e ↦ rw (eps_inv (rw e at d)) (one e)
  | inr e ↦ let d' : Matches never _ = rw e at d in elim d' [ ]
]
deriv_sound c (seq r q) d = elim (Bool-cases (nullable r)) [
  | inl e ↦ elim (alt_inv (rw e at d)) [
    | inl k ↦ let (s, t, x, y, h) = seq_inv k in pair (deriv_sound c r x) y (ap (λ w. c ∷ w) h)
    | inr k ↦ pair (nullable_sound r e) (deriv_sound c q k) refl
  ]
  | inr e ↦
      let (s, t, x, y, h) = seq_inv (rw e at d) in pair (deriv_sound c r x) y (ap (λ w. c ∷ w) h)
]
deriv_sound c (alt r q) d = elim (alt_inv d) [
  | inl k ↦ first (deriv_sound c r k)
  | inr k ↦ second (deriv_sound c q k)
]
deriv_sound c (star r) d =
    let (s, t, x, y, h) = seq_inv d in again (deriv_sound c r x) y (ap (λ w. c ∷ w) h)

deriv_complete : (c : ℕ) {r : Regex} {s u : Text} → Matches r u → u ≡ c ∷ s → Matches (deriv c r) s
unfolding deriv
deriv_complete c blank e = cc
deriv_complete c {s = s} (one {p = p} {c = x} h) e =
    let hit : p c ≡ true = ground (arith, h) in
    let end : [] ≡ s = ground arith in rw hit (subst (Matches eps) end blank)
deriv_complete c (pair {r = r} {q = q} {s = []} {t = t} d k h) e =
    rw (nullable_complete d refl) (second (deriv_complete c k (sym h ∙ e)))
deriv_complete c {s = w} (pair {r = r} {q = q} {s = x ∷ a} {t = t} d k h) e =
    let tail : w ≡ a ++ t = ground arith in
    let here : Matches (seq (deriv c r) q) w = pair (deriv_complete c d (ground arith)) k tail in
    elim (Bool-cases (nullable r)) [ inl y ↦ rw y (first here) | inr n ↦ rw n here ]
deriv_complete c (first d) e = first (deriv_complete c d e)
deriv_complete c (second d) e = second (deriv_complete c d e)
deriv_complete c stop e = cc
deriv_complete c {s = w} (again {c = x} {s = a} {t = t} d k h) e =
    let tail : w ≡ a ++ t = ground arith in pair (deriv_complete c d (ground arith)) k tail

-- `test` answers true exactly on the texts that the expression matches from end to end.
pub test_iff : (r : Regex) (s : Text) → (test r s ≡ true) ↔ Matches r s
unfolding test
test_iff r [] = (nullable_sound r, λ d. nullable_complete d refl)
test_iff r (c ∷ s) =
    let (to, from) = test_iff (deriv c r) s in
    (λ h. deriv_sound c r (to h), λ d. from (deriv_complete c d refl))
