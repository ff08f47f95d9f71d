-- ===== src/Metric/Integrations/Named.antt =====
-- The identifiers and the names of the integrations that are listed.
use centos_info_collect.Base.{
  ◌≡◌, refl, ap, sym, ◌∙◌, true, false, List, [], ◌∷◌, ◌++◌, Text, codes, null, distinct,
  distinct-snoc, map, map-append, All, All-append, ◌==◌, ℕ_eq, list_eq, if-elim, if_true, arith,
}
use mathlib.Core.List.{append_cancel_left, append_cancel_right}
use centos_info_collect.Metric.Values.{Number, Value, array_or_empty}
use centos_info_collect.Metric.Integrations.{
  Integration, ids, kind_label, or_text, integration, is_kept, add_integrations, display_name,
  is_repeated, normalize_monitor_integration_list,
}

-- An integration that may be listed: it has an identifier and a name, and it is of the kind.
abbrev pub IsOf : Text → Integration → Type 0
IsOf expected i = (null i.id ≡ false) × ((null i.name ≡ false) × ((i.kind == expected) ≡ true))

-- The identifiers are distinct, and each may be listed.
abbrev pub IsClean : Text → List Integration → Type 0
IsClean expected items = (distinct (ids items) ≡ true) × All (IsOf expected) items

name_of-null : (expected : Text) (s : Text) → null (or_text s (kind_label expected)) ≡ false
name_of-null expected s = ground arith

module _ (convert : Value → Number) where
  add-IsClean :
      (expected : Text) (v : Value) (items : List Integration)
      → is_kept convert expected items v ≡ true
      → IsClean expected items
      → IsClean expected (items ++ integration convert expected v ∷ [])
  unfolding integration
  add-IsClean expected v items k (d, a) =
      let i = integration convert expected v in
      (
        ground (
          arith,
          map-append (λ (j : Integration). j.id) items (i ∷ []),
          distinct-snoc i.id (ids items),
        ),
        All-append (IsOf expected) items (i ∷ []) a
            ((ground arith, (name_of-null expected _, ground arith)), tt),
      )

  add_integrations-IsClean :
      (expected : Text) (vs : List Value) (items : List Integration)
      → IsClean expected items
      → IsClean expected (add_integrations convert expected items vs)
  unfolding add_integrations
  add_integrations-IsClean expected [] items c = c
  add_integrations-IsClean expected (v ∷ vs) items c = add_integrations-IsClean expected vs _ (
      if-elim (IsClean expected) (is_kept convert expected items v)
        (λ y. add-IsClean expected v items y c) (λ n. c))

-- what a list of integrations and the names they are shown under is to be
abbrev pub IsShown : Text → List (Integration × Text) → Type 0
IsShown expected shown =
    IsClean expected (map (λ (s : Integration × Text). s.0) shown)
    × All
        (λ (s : Integration × Text).
          display_name (map (λ (t : Integration × Text). t.0) shown) s.0 ≡ s.1)
        shown

map-pairs :
    (f : Integration → Text) (items : List Integration)
    → map (λ (s : Integration × Text). s.0) (map (λ i. (i, f i)) items) ≡ items
map-pairs f [] = refl
map-pairs f (i ∷ items) = ap (λ js. i ∷ js) (map-pairs f items)

All-pairs :
    (f g : Integration → Text) (items : List Integration)
    → ((i : Integration) → g i ≡ f i)
    → All (λ (s : Integration × Text). g s.0 ≡ s.1) (map (λ i. (i, f i)) items)
All-pairs f g [] e = tt
All-pairs f g (i ∷ items) e = (e i, All-pairs f g items e)

-- Two integrations of the list under one name, which no object inherits, that are shown alike have
-- the same identifier.
display_name-id :
    (items : List Integration) (i j : Integration)
    → i.name ≡ j.name
    → is_repeated items i.name ≡ true
    → display_name items i ≡ display_name items j
    → i.id ≡ j.id
unfolding display_name
display_name-id items i j n r e =
    let a =
      if_true (is_repeated items i.name) (i.name ++ (codes " (#" ++ (i.id ++ codes ")"))) i.name
        r in
    let r2 : is_repeated items j.name ≡ true = ap (is_repeated items) (sym n) ∙ r in
    let b =
      if_true (is_repeated items j.name) (j.name ++ (codes " (#" ++ (j.id ++ codes ")"))) j.name
        r2 in
    let whole : i.name ++ (codes " (#" ++ (i.id ++ codes ")"))
        ≡ i.name ++ (codes " (#" ++ (j.id ++ codes ")")) =
      sym a ∙ e ∙ b ∙ ap (λ s. s ++ (codes " (#" ++ (j.id ++ codes ")"))) (sym n) in
    append_cancel_right i.id j.id (codes ")")
      (append_cancel_left (codes " (#") _ _ (append_cancel_left i.name _ _ whole))

module _ (convert : Value → Number) where
  -- Of what the server sends as integrations of a kind, those that are listed have distinct
  -- identifiers that are not empty, names that are not empty, and the kind, whatever values of JSON
  -- the server sends; and each is shown under the name that `display_name` gives it among them.
  pub normalize_monitor_integration_list-IsShown :
      (expected : Text) (v : Value)
      → IsShown expected (normalize_monitor_integration_list convert expected v)
  unfolding normalize_monitor_integration_list distinct
  normalize_monitor_integration_list-IsShown expected v =
      let items = add_integrations convert expected [] (array_or_empty v) in
      let same = map-pairs (display_name items) items in
      (
        rw same (add_integrations-IsClean convert expected (array_or_empty v) [] (refl, tt)),
        rw same (All-pairs (display_name items) (display_name items) items (λ i. refl)),
      )
