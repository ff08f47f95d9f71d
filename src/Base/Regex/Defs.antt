-- ===== src/Base/Regex/Defs.antt =====
-- Regular expressions, and what they match.
use mathlib.Core.Path.{◌≡◌}
use mathlib.Core.Bool.{Bool, true, false, ◌&&◌, ◌||◌}
use mathlib.Core.List.{[], ◌∷◌, ◌++◌}
use Prim.Native.Nat.{ℕ}
use centos_info_collect.Base.Tests.{if◌then◌else◌}
use centos_info_collect.Base.Strings.{Text}

-- `cls p` is a character class, `seq`, `alt` and `star` are juxtaposition, `|` and `*`.
pub data Regex : Type 0 where
  never eps : Regex
  cls : (ℕ → Bool) → Regex
  seq alt : Regex → Regex → Regex
  star : Regex → Regex

-- `r?` and `r+`
abbrev pub optional : Regex → Regex
optional r = alt r eps

abbrev pub plus : Regex → Regex
plus r = seq r (star r)

unfoldable pub nullable : Regex → Bool
nullable never = false
nullable eps = true
nullable (cls p) = false
nullable (seq r q) = nullable r && nullable q
nullable (alt r q) = nullable r || nullable q
nullable (star r) = true

unfoldable pub deriv : ℕ → Regex → Regex
unfolding nullable
deriv c never = never
deriv c eps = never
deriv c (cls p) = if p c then eps else never
deriv c (seq r q) = if nullable r then alt (seq (deriv c r) q) (deriv c q) else seq (deriv c r) q
deriv c (alt r q) = alt (deriv c r) (deriv c q)
deriv c (star r) = seq (deriv c r) (star r)

unfoldable pub test : Regex → Text → Bool
unfolding deriv nullable
test r [] = nullable r
test r (c ∷ s) = test (deriv c r) s

pub data Matches : Regex → Text → Type 0 where
  blank : Matches eps []
  one : {p : ℕ → Bool} {c : ℕ} → p c ≡ true → Matches (cls p) (c ∷ [])
  pair : {r q : Regex} {s t u : Text} → Matches r s → Matches q t → u ≡ s ++ t → Matches (seq r q) u
  first : {r q : Regex} {s : Text} → Matches r s → Matches (alt r q) s
  second : {r q : Regex} {s : Text} → Matches q s → Matches (alt r q) s
  stop : {r : Regex} → Matches (star r) []
  again :
      {r : Regex} {c : ℕ} {s t u : Text}
      → Matches r (c ∷ s)
      → Matches (star r) t
      → u ≡ c ∷ (s ++ t)
      → Matches (star r) u
