-- ===== src/Devops/Work/Priority.antt =====
-- The list of what is most urgent in static/js/devops-vue.js.
use Prim.Native.Nat.{min}
use centos_info_collect.Base.{
  ℕ, zero, suc, ◌+◌, ◌≡◌, refl, ap, ◌∙◌, Bool, true, false, List, [], ◌∷◌, take, tally, ltb,
  if◌then◌else◌, arith, Bool-cases, inl, inr,
}
use centos_info_collect.Table.Sorting.{insert_by, sort_by, sort_by-IsSorted, IsSorted, NotBefore}
use centos_info_collect.Devops.Work.{Alert, Approval, Item, before, all_items, priority_items}

-- The item is more urgent than this priority.
abbrev pub is_below : ℕ → Item → Bool
is_below b i = ltb i.priority b

tally-insert_by :
    (p : Item → Bool) (x : Item) (ys : List Item)
    → tally p (insert_by before x ys) ≡ (if p x then 1 else 0) + tally p ys
unfolding insert_by
tally-insert_by p x [] = ground arith
tally-insert_by p x (y ∷ ys) = ground (arith, tally-insert_by p x ys)

tally-sort_by : (p : Item → Bool) (xs : List Item) → tally p (sort_by before xs) ≡ tally p xs
unfolding sort_by
tally-sort_by p [] = refl
tally-sort_by p (x ∷ xs) =
    ground (arith, tally-insert_by p x (sort_by before xs), tally-sort_by p xs)

-- In a sorted list none is below a priority behind one that is not.
tally-IsSorted :
    (b : ℕ) (x : Item) (ys : List Item)
    → NotBefore before x ys
    → IsSorted before ys
    → is_below b x ≡ false
    → tally (is_below b) ys ≡ 0
tally-IsSorted b x [] n s h = refl
tally-IsSorted b x (y ∷ ys) n (m, s) h =
    let k : is_below b y ≡ false = ground arith in ground (arith, tally-IsSorted b y ys m s k)

tally-take :
    (b n : ℕ) (xs : List Item)
    → IsSorted before xs
    → tally (is_below b) (take n xs) ≡ min n (tally (is_below b) xs)
tally-take b zero xs s = ground arith
tally-take b (suc n) [] s = omega arith
tally-take b (suc n) (x ∷ xs) (m, s) = elim (Bool-cases (is_below b x)) [
  | inl y ↦ ground (arith, tally-take b n xs s)
  | inr o ↦ ground (arith, tally-take b n xs s, tally-IsSorted b x xs m s o)
]

asymmetric : (x y : Item) → before x y ≡ true → before y x ≡ false
asymmetric x y h = ground arith

IsSorted-take : (n : ℕ) (xs : List Item) → IsSorted before xs → IsSorted before (take n xs)
IsSorted-take zero xs s = tt
IsSorted-take (suc n) [] s = tt
IsSorted-take (suc zero) (x ∷ xs) s = (tt, tt)
IsSorted-take (suc (suc n)) (x ∷ []) s = (tt, tt)
IsSorted-take (suc (suc n)) (x ∷ y ∷ ys) (m, s) = (m, IsSorted-take (suc n) (y ∷ ys) s)

-- The list of what is most urgent is sorted by priority; and for every priority it has as many items
-- that are more urgent as there are among the alerts that are not over and the approvals that are
-- pending, up to six: nothing more urgent is left out for something less urgent.
pub priority_items-IsUrgent :
    (alerts : List Alert) (approvals : List Approval) (b : ℕ)
    → IsSorted before (priority_items alerts approvals)
      × (tally (is_below b) (priority_items alerts approvals)
          ≡ min 6 (tally (is_below b) (all_items alerts approvals)))
unfolding priority_items
priority_items-IsUrgent alerts approvals b =
    let items = all_items alerts approvals in
    let s = sort_by-IsSorted before asymmetric items in
    (
      IsSorted-take 6 (sort_by before items) s,
      tally-take b 6 (sort_by before items) s ∙ ap (min 6) (tally-sort_by (is_below b) items),
    )
