-- ===== src/Tablist.antt =====
-- The keys of a list of tabs, as the methods `onTabKeydown` of static/js/aiops-vue.js and
-- static/js/devops-vue.js handle them, and `handleMetricTabKeydown` of static/js/ops-vue-pages.js.
use centos_info_collect.Base.{ℕ, ◌+◌, ◌-◌, ◌%◌, ◌≤◌, ◌<◌, ◌≡◌, ap, ◌∙◌, Option, none, some, arith}
use native.Mathlib.Nat.{mod-eq_of_lt, mod-eq-sub-mod}
use native.Mathlib.Decide.{dec_lt}

pub data Key : Type 0 where
  arrow_right : Key
  arrow_left : Key
  home : Key
  end_key : Key
  other : Key

-- the tab that a key leads to from the one at `index` of `count`, for at least one tab
unfoldable pub target : Key → ℕ → ℕ → Option ℕ
target arrow_right index count = some ((index + 1) % count)
target arrow_left index count = some ((index + count - 1) % count)
target home index count = some 0
target end_key index count = some (count - 1)
target other index count = none

mod-lt : (a n : ℕ) → 0 < n → a % n < n
mod-lt a n h = grind arith

mod_over : (a n : ℕ) → n ≤ a → a < n + n → a % n ≡ a - n
mod_over a n h k = mod-eq-sub-mod {n = a} {m = n} h ∙ mod-eq_of_lt {n = a - n} {m = n} (omega arith)

-- A key leads from a tab to a tab.
pub target-lt : (k : Key) (i j n : ℕ) → i < n → target k i n ≡ some j → j < n
unfolding target
target-lt arrow_right i j n h e = ground (arith, mod-lt (i + 1) n)
target-lt arrow_left i j n h e = ground (arith, mod-lt (i + n - 1) n)
target-lt home i j n h e = ground arith
target-lt end_key i j n h e = ground arith
target-lt other i j n h e = cc

right_left : (i n : ℕ) → i < n → ((i + 1) % n + n - 1) % n ≡ i
right_left i n h = elim (dec_lt (i + 1) n) [
  | yes p ↦
      rw (mod-eq_of_lt {n = i + 1} {m = n} p)
        (mod_over (i + 1 + n - 1) n (omega arith) (omega arith) ∙ omega arith)
  | no p ↦
      rw (mod_over (i + 1) n (omega arith) (omega arith))
        (mod-eq_of_lt {n = i + 1 - n + n - 1} {m = n} (omega arith) ∙ omega arith)
]

left_right : (i n : ℕ) → i < n → ((i + n - 1) % n + 1) % n ≡ i
left_right i n h = elim (dec_lt 0 i) [
  | yes p ↦
      rw (mod_over (i + n - 1) n (omega arith) (omega arith))
        (mod-eq_of_lt {n = i + n - 1 - n + 1} {m = n} (omega arith) ∙ omega arith)
  | no p ↦
      rw (mod-eq_of_lt {n = i + n - 1} {m = n} (omega arith))
        (mod_over (i + n - 1 + 1) n (omega arith) (omega arith) ∙ omega arith)
]

-- where two keys lead, the second pressed at the tab that the first leads to
abbrev pub then_target : Key → Key → ℕ → ℕ → Option ℕ
unfolding target
then_target k l i n = elim (target k i n) [ none ↦ none | some j ↦ target l j n ]

-- From any tab, the arrow to the right and then, at the tab it leads to, the one to the left lead
-- back, and so do they in the other order.
pub target-target_arrows :
    (i n : ℕ)
    → i < n
    → (then_target arrow_right arrow_left i n ≡ some i)
      × (then_target arrow_left arrow_right i n ≡ some i)
unfolding target
target-target_arrows i n h = (ap some (right_left i n h), ap some (left_right i n h))
