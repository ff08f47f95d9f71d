-- ===== src/Table/Sorting.antt =====
-- A stable sort by a comparison, for `Array.prototype.sort`.
use mathlib.Core.List.{Perm}
use mathlib.Core.List.Perm
use centos_info_collect.Base.{
  ◌≡◌, Bool, true, false, List, [], ◌∷◌, if◌then◌else◌, Bool-cases, inl, inr,
}

module _ {ℓ} {A : Type ℓ} (before : A → A → Bool) where
  unfoldable pub insert_by : A → List A → List A
  insert_by x [] = x ∷ []
  insert_by x (y ∷ ys) = if before y x then y ∷ insert_by x ys else x ∷ y ∷ ys

  unfoldable pub sort_by : List A → List A
  unfolding insert_by
  sort_by [] = []
  sort_by (x ∷ xs) = insert_by x (sort_by xs)

  -- No element is before the one that stands in front of it.
  abbrev pub NotBefore : A → List A → Type 0
  NotBefore x [] = Unit
  NotBefore x (y ∷ ys) = before y x ≡ false

  abbrev pub IsSorted : List A → Type 0
  IsSorted [] = Unit
  IsSorted (x ∷ xs) = NotBefore x xs × IsSorted xs

  insert_by-perm : (x : A) (ys : List A) → Perm (insert_by x ys) (x ∷ ys)
  unfolding insert_by
  insert_by-perm x [] = Perm.refl (x ∷ [])
  insert_by-perm x (y ∷ ys) = elim (Bool-cases (before y x)) [
    | inl later ↦ rw later (Perm.trans (Perm.cons y (insert_by-perm x ys)) (Perm.swap x y ys))
    | inr here ↦ rw here (Perm.refl (x ∷ y ∷ ys))
  ]

  pub sort_by-perm : (xs : List A) → Perm (sort_by xs) xs
  unfolding sort_by
  sort_by-perm [] = Perm.refl []
  sort_by-perm (x ∷ xs) = Perm.trans (insert_by-perm x (sort_by xs)) (Perm.cons x (sort_by-perm xs))

  module _ (asymmetric : (x y : A) → before x y ≡ true → before y x ≡ false) where
    insert_by-NotBefore :
        (z x : A) (ys : List A) → NotBefore z ys → before x z ≡ false → NotBefore z (insert_by x ys)
    unfolding insert_by
    insert_by-NotBefore z x [] h k = k
    insert_by-NotBefore z x (y ∷ ys) h k = elim (Bool-cases (before y x)) [
      | inl later ↦ rw later h
      | inr here ↦ rw here k
    ]

    insert_by-IsSorted : (x : A) (ys : List A) → IsSorted ys → IsSorted (insert_by x ys)
    unfolding insert_by
    insert_by-IsSorted x [] s = (tt, tt)
    insert_by-IsSorted x (y ∷ ys) s = elim (Bool-cases (before y x)) [
      | inl later ↦
          rw later
            (insert_by-NotBefore y x ys s.0 (asymmetric y x later), insert_by-IsSorted x ys s.1)
      | inr here ↦ rw here (here, s)
    ]

    pub sort_by-IsSorted : (xs : List A) → IsSorted (sort_by xs)
    unfolding sort_by
    sort_by-IsSorted [] = tt
    sort_by-IsSorted (x ∷ xs) = insert_by-IsSorted x (sort_by xs) (sort_by-IsSorted xs)
