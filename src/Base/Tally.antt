-- ===== src/Base/Tally.antt =====
-- How many elements of a list pass a test, and what taking one element away makes of that number.
use Prim.Native.Nat.{ℕ, zero, suc, ◌+◌, ◌≤◌}
use mathlib.Core.Path.{◌≡◌, refl, sym}
use mathlib.Core.Logic.{inl, inr}
use mathlib.Core.Bool.{Bool}
use mathlib.Core.Option.{some}
use mathlib.Core.List.{List, [], ◌∷◌, ◌++◌}
use native.Mathlib.Omega.{arith}
use centos_info_collect.Base.Tests.{ltb, if◌then◌else◌, Option-cases, ◌==◌, ℕ_eq, nat_eq_iff}
use centos_info_collect.Base.Lists.{All, any}
use centos_info_collect.Base.Members.{pick}

module _ {ℓ} {A : Type ℓ} (p : A → Bool) where
  abbrev pub tally : List A → ℕ
  tally [] = 0
  tally (x ∷ xs) = let rest = tally xs in if p x then suc rest else rest

  pub tally-append : (xs ys : List A) → tally (xs ++ ys) ≡ tally xs + tally ys
  tally-append [] ys = omega arith
  tally-append (x ∷ xs) ys = ground (arith, tally-append xs ys)

  pub tally-snoc : (xs : List A) (x : A) → tally (xs ++ x ∷ []) ≡ tally xs + (if p x then 1 else 0)
  tally-snoc xs x = ground (arith, tally-append xs (x ∷ []))

  pub tally-pick :
      (n : ℕ) (xs : List A) {a : A} {rest : List A}
      → pick n xs ≡ some (a, rest)
      → tally xs ≡ (if p a then 1 else 0) + tally rest
  tally-pick n [] h = cc
  tally-pick zero (x ∷ xs) h = ground arith
  tally-pick (suc n) (x ∷ xs) {a} {rest} h = elim (Option-cases (pick n xs)) [
    | inl gone ↦ cc (rw gone at h)
    | inr ((y, ys), found) ↦
        let same : y ≡ a = ground (arith, rw found at h) in
        let left : x ∷ ys ≡ rest = ground (arith, rw found at h) in
        rw (sym same, sym left) (ground (arith, tally-pick n xs found))
  ]

  pub any-tally : (xs : List A) → any p xs ≡ ltb 0 (tally xs)
  any-tally [] = refl
  any-tally (x ∷ xs) = ground (arith, any-tally xs)

-- Versions: no element of the list is later than `v`.
module _ {ℓ} {A : Type ℓ} (version : A → ℕ) where
  abbrev pub IsUpTo : ℕ → List A → Type 0
  IsUpTo v xs = All (λ x. version x ≤ v) xs

  pub IsUpTo-suc : (v : ℕ) (xs : List A) → IsUpTo v xs → IsUpTo (suc v) xs
  IsUpTo-suc v [] h = tt
  IsUpTo-suc v (x ∷ xs) (a, h) = (omega arith, IsUpTo-suc v xs h)

  pub tally-IsUpTo : (v : ℕ) (xs : List A) → IsUpTo v xs → tally (λ x. version x == suc v) xs ≡ 0
  tally-IsUpTo v [] h = refl
  tally-IsUpTo v (x ∷ xs) (a, h) =
      ground (arith, tally-IsUpTo v xs h, nat_eq_iff (version x) (suc v))
