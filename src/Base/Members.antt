-- ===== src/Base/Members.antt =====
-- Membership by `===`, lists without repetition, and taking one element away.
use Prim.Native.Nat.{ℕ, zero, suc, ◌+◌}
use mathlib.Core.Path.{◌≡◌, refl, subst}
use mathlib.Core.Logic.{inl, inr}
use mathlib.Core.Bool.{Bool, true, false, not, ◌&&◌, ◌||◌}
use mathlib.Core.Option.{Option, none, some}
use mathlib.Core.List.{List, [], ◌∷◌, ◌++◌}
use native.Mathlib.Omega.{arith}
use centos_info_collect.Base.Tests.{Eq, ◌==◌, if◌then◌else◌, Bool-cases, Option-cases}
use centos_info_collect.Base.Lists.{length, All, select}
use centos_info_collect.Base.Keyed.{has, insert, erase}

-- one element out of a list, by its position, and what is left
abbrev pub pick {ℓ} : {A : Type ℓ} → ℕ → List A → Option (A × List A)
pick i [] = none
pick zero (x ∷ xs) = some (x, xs)
pick (suc i) (x ∷ xs) = elim (pick i xs) [ none ↦ none | some (y, ys) ↦ some (y, x ∷ ys) ]

pub All-pick {ℓ κ} :
    {A : Type ℓ} (P : A → Type κ) (i : ℕ) (xs : List A) {a : A} {rest : List A}
    → pick i xs ≡ some (a, rest)
    → All P xs
    → P a × All P rest
All-pick P i [] h k = cc
All-pick P zero (x ∷ xs) {a} {rest} h k =
    let p : x ≡ a = ground arith in
    let q : xs ≡ rest = ground arith in (subst P p k.0, subst (All P) q k.1)
All-pick P (suc i) (x ∷ xs) {a} {rest} h k = elim (Option-cases (pick i xs)) [
  | inl gone ↦ cc (rw gone at h)
  | inr ((y, ys), found) ↦
      let (p, q) = All-pick P i xs found k.1 in
      let same : y ≡ a = ground (arith, rw found at h) in
      let left : x ∷ ys ≡ rest = ground (arith, rw found at h) in
      (subst P same p, subst (All P) left (k.0, q))
]

pub length-pick {ℓ} :
    {A : Type ℓ} (i : ℕ) (xs : List A) {a : A} {rest : List A}
    → pick i xs ≡ some (a, rest)
    → length xs ≡ suc (length rest)
length-pick i [] h = cc
length-pick zero (x ∷ xs) h = ground arith
length-pick (suc i) (x ∷ xs) h = elim (Option-cases (pick i xs)) [
  | inl gone ↦ cc (rw gone at h)
  | inr ((y, ys), found) ↦ ground (arith, length-pick i xs found, rw found at h)
]

module _ {ℓ} {A : Type ℓ} ⦃e : Eq A⦄ where
  unfoldable pub elem : A → List A → Bool
  elem a [] = false
  elem a (x ∷ xs) = x == a || elem a xs

  unfoldable pub distinct : List A → Bool
  unfolding elem
  distinct [] = true
  distinct (x ∷ xs) = not (elem x xs) && distinct xs

  -- without the first occurrence
  unfoldable pub remove : A → List A → List A
  remove a [] = []
  remove a (x ∷ xs) = if x == a then xs else x ∷ remove a xs

  pub elem-append : (a : A) (xs ys : List A) → elem a (xs ++ ys) ≡ (elem a xs || elem a ys)
  unfolding elem
  elem-append a [] ys = refl
  elem-append a (x ∷ xs) ys = ground (arith, elem-append a xs ys)

  pub elem-snoc : (a x : A) (xs : List A) → elem a (xs ++ x ∷ []) ≡ (elem a xs || x == a)
  unfolding elem
  elem-snoc a x [] = ground arith
  elem-snoc a x (y ∷ xs) = ground (arith, elem-snoc a x xs)

  pub distinct-snoc :
      (x : A) (xs : List A) → distinct (xs ++ x ∷ []) ≡ (distinct xs && not (elem x xs))
  unfolding elem distinct
  distinct-snoc x [] = refl
  distinct-snoc x (y ∷ xs) =
      ground (arith, distinct-snoc x xs, elem-snoc y x xs, e.beq_iff x y, e.beq_iff y x)

  pub length-remove :
      (a : A) (xs : List A) → elem a xs ≡ true → length (remove a xs) + 1 ≡ length xs
  unfolding elem remove
  length-remove a [] h = cc
  length-remove a (x ∷ xs) h = ground (arith, length-remove a xs)

  pub elem-remove :
      (b a : A) (xs : List A)
      → distinct xs ≡ true
      → elem b (remove a xs) ≡ (elem b xs && not (a == b))
  unfolding elem distinct remove
  elem-remove b a [] h = refl
  elem-remove b a (x ∷ xs) h =
      ground (arith, elem-remove b a xs, e.beq_iff x a, e.beq_iff x b, e.beq_iff a b, e.beq_iff b a)

  pub distinct-remove : (a : A) (xs : List A) → distinct xs ≡ true → distinct (remove a xs) ≡ true
  unfolding elem distinct remove
  distinct-remove a [] h = refl
  distinct-remove a (x ∷ xs) h = ground (arith, distinct-remove a xs, elem-remove x a xs)

  pub elem-select : (a : A) (p : A → Bool) (xs : List A) → elem a (select p xs) ≡ (elem a xs && p a)
  unfolding elem
  elem-select a p [] = refl
  elem-select a p (x ∷ xs) = ground (arith, elem-select a p xs, e.beq_iff x a)

  -- What holds of every element holds of a member.
  pub All-elem {κ} : (P : A → Type κ) (a : A) (xs : List A) → All P xs → elem a xs ≡ true → P a
  unfolding elem
  All-elem P a [] h m = cc
  All-elem P a (x ∷ xs) h m = elim (Bool-cases (x == a)) [
    | inl here ↦ subst P ((e.beq_iff x a).0 here) h.0
    | inr later ↦ All-elem P a xs h.1 (ground arith)
  ]

  pub elem-pick :
      (i : ℕ) (xs : List A) {a : A} {rest : List A} (b : A)
      → pick i xs ≡ some (a, rest)
      → elem b xs ≡ (a == b || elem b rest)
  unfolding elem
  elem-pick i [] b h = cc
  elem-pick zero (x ∷ xs) b h = ground arith
  elem-pick (suc i) (x ∷ xs) b h = elim (Option-cases (pick i xs)) [
    | inl gone ↦ cc (rw gone at h)
    | inr ((y, ys), found) ↦ ground (arith, elem-pick i xs b found, rw found at h)
  ]

  pub distinct-pick :
      (i : ℕ) (xs : List A) {a : A} {rest : List A}
      → pick i xs ≡ some (a, rest)
      → distinct xs ≡ true
      → (distinct rest ≡ true) × (elem a rest ≡ false)
  unfolding elem distinct
  distinct-pick i [] h d = cc
  distinct-pick zero (x ∷ xs) h d = ground arith
  distinct-pick (suc i) (x ∷ xs) h d = elim (Option-cases (pick i xs)) [
    | inl gone ↦ cc (rw gone at h)
    | inr ((y, ys), found) ↦ ground (
      arith,
      elem-pick i xs x found,
      distinct-pick i xs found,
      rw found at h,
      e.beq_iff x y,
      e.beq_iff y x,
    )
  ]

module _ {ℓ κ} {A : Type ℓ} {V : Type κ} ⦃e : Eq A⦄ where
  abbrev pub keys : List (A × V) → List A
  keys [] = []
  keys ((k, v) ∷ m) = k ∷ keys m

  pub has-keys : (k : A) (m : List (A × V)) → has k m ≡ elem k (keys m)
  unfolding has elem
  has-keys k [] = refl
  has-keys k ((j, v) ∷ m) = rw (has-keys k m)

  pub keys-insert_new :
      (k : A) (v : V) (m : List (A × V))
      → elem k (keys m) ≡ false
      → keys (insert k v m) ≡ keys m ++ k ∷ []
  unfolding insert elem
  keys-insert_new k v [] h = refl
  keys-insert_new k v ((j, w) ∷ m) h = ground (arith, keys-insert_new k v m)

  pub keys-erase_absent :
      (k : A) (m : List (A × V)) → elem k (keys m) ≡ false → keys (erase k m) ≡ keys m
  unfolding erase elem
  keys-erase_absent k [] h = refl
  keys-erase_absent k ((j, v) ∷ m) h = ground (arith, keys-erase_absent k m)

  pub keys-erase :
      (k : A) (m : List (A × V)) → distinct (keys m) ≡ true → keys (erase k m) ≡ remove k (keys m)
  unfolding erase distinct remove
  keys-erase k [] h = refl
  keys-erase k ((j, v) ∷ m) h = ground (arith, keys-erase k m, keys-erase_absent k m, e.beq_iff j k)
