-- ===== src/Metric/Cleaning.antt =====
-- `normalizeMetricResourceLabels` of static/js/ops-vue-pages.js.
use centos_info_collect.Base.{
  ℕ, ◌≤◌, ◌≡◌, Bool, true, false, not, ◌&&◌, ◌||◌, List, [], ◌+◌, ◌∷◌, ◌++◌, Text, null, length,
  length-append, ltb, leb, ◌==◌, All, All-append, ◌⊎◌, inl, inr, ℕ_eq, list_eq, if◌then◌else◌,
  arith, subst,
}
use centos_info_collect.Metric.Values.{
  Value, null_value, undefined, boolean, number, string, array, object, pairs,
}
use centos_info_collect.Metric.Texts.{safe_metric_resource_text, length-safe_metric_resource_text}
use centos_info_collect.Metric.Labels.{
  is_sensitive_metric_label_key, is_sensitive_metric_label_value,
}

pub record Label : Type 0 where
  pub name : Text
  pub value : Text

-- the order of `sort`, by code units
abbrev pub text_leb : Text → Text → Bool
text_leb [] t = true
text_leb (c ∷ s) [] = false
text_leb (c ∷ s) (d ∷ t) = ltb c d || (c == d && text_leb s t)

abbrev pub insert_sorted : (Text × Value) → List (Text × Value) → List (Text × Value)
insert_sorted e [] = e ∷ []
insert_sorted e (x ∷ xs) = if text_leb e.0 x.0 then e ∷ x ∷ xs else x ∷ insert_sorted e xs

abbrev pub sort_keys : List (Text × Value) → List (Text × Value)
sort_keys [] = []
sort_keys (e ∷ es) = insert_sorted e (sort_keys es)

module _ (lower_other : ℕ → Text) where
  unfoldable pub add_label : List Label → (Text × Value) → List Label
  add_label items (key, v) =
      let name = safe_metric_resource_text (string key) 120 in
      let value = safe_metric_resource_text v 500 in
      if leb 24 (length items)
        || is_sensitive_metric_label_key lower_other key
        || is_sensitive_metric_label_value v
      then items
      else if not (null name) && not (null value)
      then items ++ record { name = name; value = value } ∷ []
      else items

  unfoldable pub add_labels : List Label → List (Text × Value) → List Label
  unfolding add_label
  add_labels items [] = items
  add_labels items (e ∷ es) = add_labels (add_label items e) es

  abbrev pub normalize_metric_resource_labels : Value → List Label
  normalize_metric_resource_labels (object es) = add_labels [] (sort_keys (pairs es))
  normalize_metric_resource_labels v = []

  -- The label shows the entry, whose key and value are not sensitive.
  abbrev pub Shows : Label → Text → Value → Type 0
  Shows l key v =
      ((l.name ≡ safe_metric_resource_text (string key) 120)
        × (l.value ≡ safe_metric_resource_text v 500))
      × ((is_sensitive_metric_label_key lower_other key ≡ false)
          × (is_sensitive_metric_label_value v ≡ false))

  -- The label shows some entry of the list.
  abbrev pub ShowsSome : List (Text × Value) → Label → Type 0
  ShowsSome [] l = ⊥
  ShowsSome ((key, v) ∷ es) l = Shows l key v ⊎ ShowsSome es l

  insert_sorted-cases :
      (e x : Text × Value) (xs : List (Text × Value))
      → (insert_sorted e (x ∷ xs) ≡ e ∷ x ∷ xs)
        ⊎ (insert_sorted e (x ∷ xs) ≡ x ∷ insert_sorted e xs)
  insert_sorted-cases e x xs = ground arith

  insert_sorted-ShowsSome :
      (key : Text) (v : Value) (es : List (Text × Value)) (l : Label)
      → ShowsSome (insert_sorted (key, v) es) l
      → Shows l key v ⊎ ShowsSome es l
  insert_sorted-ShowsSome key v [] l o = o
  insert_sorted-ShowsSome key v ((k, w) ∷ es) l o = elim (insert_sorted-cases (key, v) (k, w) es) [
    | inl e ↦ subst (λ xs. ShowsSome xs l) e o
    | inr e ↦
        let o2 : ShowsSome ((k, w) ∷ insert_sorted (key, v) es) l =
          subst (λ xs. ShowsSome xs l) e o in
        elim o2 [
          | inl s ↦ inr (inl s)
          | inr m ↦ elim (insert_sorted-ShowsSome key v es l m) [
            | inl s ↦ inl s
            | inr t ↦ inr (inr t)
          ]
        ]
  ]

  sort_keys-ShowsSome :
      (es : List (Text × Value)) (l : Label) → ShowsSome (sort_keys es) l → ShowsSome es l
  sort_keys-ShowsSome [] l o = o
  sort_keys-ShowsSome ((key, v) ∷ es) l o =
      elim (insert_sorted-ShowsSome key v (sort_keys es) l o) [
        | inl s ↦ inl s
        | inr m ↦ inr (sort_keys-ShowsSome es l m)
      ]

  -- Neither part of the label is empty or too long.
  abbrev pub IsShort : Label → Type 0
  IsShort l =
      ((null l.name ≡ false) × (null l.value ≡ false))
      × ((length l.name ≤ 120) × (length l.value ≤ 500))

  abbrev label : Text → Value → Label
  label key v = record {
    name = safe_metric_resource_text (string key) 120;
    value = safe_metric_resource_text v 500;
  }

  add_label-cases :
      (items : List Label) (key : Text) (v : Value)
      → (add_label items (key, v) ≡ items)
        ⊎ ((add_label items (key, v) ≡ items ++ label key v ∷ [])
            × (((length items + 1) ≤ 24) × ((IsShort (label key v)) × Shows (label key v) key v)))
  unfolding add_label
  add_label-cases items key v = ground (
    arith,
    length-safe_metric_resource_text (string key) 120,
    length-safe_metric_resource_text v 500,
  )

  add_labels-length :
      (items : List Label) (es : List (Text × Value))
      → length items ≤ 24
      → length (add_labels items es) ≤ 24
  unfolding add_labels
  add_labels-length items [] h = h
  add_labels-length items ((key, v) ∷ es) h =
      add_labels-length (add_label items (key, v)) es (elim (add_label-cases items key v) [
        | inl e ↦ rw e h
        | inr (e, (b, r)) ↦ rw e (rw (length-append items (label key v ∷ [])) b)
      ])

  add_labels-All :
      (P : Label → Type 0) (items : List Label) (es : List (Text × Value))
      → All P items
      → ((l : Label) → IsShort l → ShowsSome es l → P l)
      → All P (add_labels items es)
  unfolding add_labels
  add_labels-All P items [] a p = a
  add_labels-All P items ((key, v) ∷ es) a p =
      add_labels-All P (add_label items (key, v)) es
        (elim (add_label-cases items key v) [
          | inl e ↦ rw e a
          | inr (e, (b, (i, s))) ↦
              rw e (All-append P items (label key v ∷ []) a (p (label key v) i (inl s), tt))
        ])
        (λ l i o. p l i (inr o))

  -- the entries of a value that is an object
  abbrev pub entries_of : Value → List (Text × Value)
  entries_of (object es) = pairs es
  entries_of v = []

  -- At most 24 labels are kept. No name is empty or longer than 120 code units and no value is
  -- empty or longer than 500, and each label shows an entry of the object whose key and whose value
  -- are not sensitive.
  pub normalize_metric_resource_labels-IsSafe :
      (v : Value)
      → (length (normalize_metric_resource_labels v) ≤ 24)
        × All (λ l. IsShort l × ShowsSome (entries_of v) l) (normalize_metric_resource_labels v)
  normalize_metric_resource_labels-IsSafe (object es) = (
    add_labels-length [] (sort_keys (pairs es)) (omega arith),
    add_labels-All (λ l. IsShort l × ShowsSome (pairs es) l) [] (sort_keys (pairs es)) tt
        (λ l i o. (i, sort_keys-ShowsSome (pairs es) l o)),
  )
  normalize_metric_resource_labels-IsSafe null_value = (omega arith, tt)
  normalize_metric_resource_labels-IsSafe undefined = (omega arith, tt)
  normalize_metric_resource_labels-IsSafe (boolean b) = (omega arith, tt)
  normalize_metric_resource_labels-IsSafe (number n) = (omega arith, tt)
  normalize_metric_resource_labels-IsSafe (string s) = (omega arith, tt)
  normalize_metric_resource_labels-IsSafe (array vs) = (omega arith, tt)
