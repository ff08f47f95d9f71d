-- ===== src/Base/Regex/Inversion.antt =====
-- What a match is made of.
use mathlib.Core.Path.{◌≡◌, refl}
use mathlib.Core.Bool.{Bool, true}
use mathlib.Core.Logic.{◌⊎◌, inl, inr}
use mathlib.Core.List.{[], ◌∷◌, ◌++◌}
use Prim.Native.Nat.{ℕ}
use centos_info_collect.Base.Strings.{Text}
use centos_info_collect.Base.Regex.Defs.{
  Regex, eps, cls, seq, alt, Matches, blank, one, pair, first, second,
}

pub eps_inv : {s : Text} → Matches eps s → s ≡ []
eps_inv blank = refl

pub cls_inv : {p : ℕ → Bool} {s : Text} → Matches (cls p) s → (c : ℕ) × (p c ≡ true) × (s ≡ c ∷ [])
cls_inv (one {c = c} h) = (c, h, refl)

pub seq_inv :
    {r q : Regex} {u : Text}
    → Matches (seq r q) u
    → (s : Text) × (t : Text) × Matches r s × Matches q t × (u ≡ s ++ t)
seq_inv (pair {s = s} {t = t} d e h) = (s, t, d, e, h)

pub alt_inv : {r q : Regex} {s : Text} → Matches (alt r q) s → Matches r s ⊎ Matches q s
alt_inv (first d) = inl d
alt_inv (second d) = inr d
