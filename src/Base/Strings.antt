-- ===== src/Base/Strings.antt =====
-- JavaScript strings as lists of UTF-16 code units, and the methods of `String` that are used.
use Prim.Native.Nat.{ℕ, ◌≤◌}
use Prim.Native.Char.{code}
use Prim.Native.String.{String}
use mathlib.Core.Path.{◌≡◌, refl}
use mathlib.Core.Bool.{Bool, true, false, ◌&&◌, ◌||◌}
use mathlib.Core.Logic.{inl, inr}
use mathlib.Core.List.{List, [], ◌∷◌, reverse}
use native.Mathlib.Omega.{arith}
use centos_info_collect.Base.Tests.{leb, ◌==◌, ℕ_eq, if◌then◌else◌, Bool-cases}
use centos_info_collect.Base.Lists.{length, length-reverse}

abbrev pub Text : Type 0
Text = List ℕ

-- The code units of a literal, every character of which is in the basic plane.
abbrev pub codes : String → Text
codes String.[] = []
codes (String.◌∷◌ c s) = code c ∷ codes s

-- White space and line terminators: what `trim` removes and what `\s` matches.
unfoldable pub is_space : ℕ → Bool
is_space c =
    (leb 9 c && leb c 13)
    || c == 32
    || c == 160
    || c == 5760
    || (leb 8192 c && leb c 8202)
    || c == 8232
    || c == 8233
    || c == 8239
    || c == 8287
    || c == 12288
    || c == 65279

unfoldable pub trim_start : Text → Text
trim_start [] = []
trim_start (c ∷ s) = if is_space c then trim_start s else c ∷ s

unfoldable pub trim : Text → Text
unfolding trim_start is_space
trim s = reverse (trim_start (reverse (trim_start s)))

abbrev pub starts_with : Text → Text → Bool
starts_with [] s = true
starts_with (c ∷ p) [] = false
starts_with (c ∷ p) (d ∷ s) = c == d && starts_with p s

-- the method `includes`
unfoldable pub includes : Text → Text → Bool
includes p [] = starts_with p []
includes p (d ∷ s) = starts_with p (d ∷ s) || includes p s

pub length-trim_start : (s : Text) → length (trim_start s) ≤ length s
unfolding trim_start
length-trim_start [] = omega arith
length-trim_start (c ∷ s) = ground (arith, length-trim_start s)

pub length-trim : (s : Text) → length (trim s) ≤ length s
unfolding trim
length-trim s = rw length-reverse (
    omega (
      arith,
      length-trim_start (reverse (trim_start s)),
      length-reverse (trim_start s),
      length-trim_start s,
    ))

-- A text that begins with no space is what `trim_start` keeps.
abbrev pub NoSpaceFirst : Text → Type 0
NoSpaceFirst [] = Unit
NoSpaceFirst (c ∷ _) = is_space c ≡ false

pub trim_start-NoSpaceFirst : (s : Text) → NoSpaceFirst (trim_start s)
unfolding trim_start
trim_start-NoSpaceFirst [] = tt
trim_start-NoSpaceFirst (c ∷ s) = elim (Bool-cases (is_space c)) [
  | inl e ↦ rw e (trim_start-NoSpaceFirst s)
  | inr e ↦ rw e e
]

pub trim_start_of_NoSpaceFirst : (s : Text) → NoSpaceFirst s → trim_start s ≡ s
unfolding trim_start
trim_start_of_NoSpaceFirst [] h = refl
trim_start_of_NoSpaceFirst (c ∷ s) h = rw h

abbrev pub extend_first : ℕ → List Text → List Text
extend_first c [] = (c ∷ []) ∷ []
extend_first c (s ∷ ss) = (c ∷ s) ∷ ss

-- the method `split` with a separator of one code unit
unfoldable pub split : ℕ → Text → List Text
split c [] = [] ∷ []
split c (d ∷ s) = if d == c then [] ∷ split c s else extend_first d (split c s)
