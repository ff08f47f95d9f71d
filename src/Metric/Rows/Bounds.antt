-- ===== src/Metric/Rows/Bounds.antt =====
-- What `normalizeMetricTargets`, `normalizeMetricRules` and `normalizeMetricAlerts` promise of the
-- rows they keep.
use centos_info_collect.Base.{
  ap, sym, subst, ℕ, zero, suc, ◌≤◌, ◌≡◌, refl, Bool, ◌||◌, true, false, List, [], ◌∷◌, Text, codes,
  length, length-map, length-take, length-select, take, select, map, ltb, arith,
}
use centos_info_collect.Metric.Values.{Number, Value, property, is_record, truthy, array_or_empty}
use centos_info_collect.Metric.Rows.{ResourceData, normalize_object, normalize_rows}

-- The rows the server sent.
abbrev pub raw_rows : Value → List Value
raw_rows resource = array_or_empty (property (codes "rows") resource)

take-all :
    (n : ℕ) (p : Value → Bool) (xs : List Value)
    → length (take n (select p xs)) ≡ length xs
    → take n (select p xs) ≡ xs
take-all zero p [] h = refl
take-all (suc n) p [] h = refl
take-all zero p (x ∷ xs) h = ground arith
take-all (suc n) p (x ∷ xs) h =
    ground (arith, take-all n p xs, length-take (suc n) (select p xs), length-select p xs)

module _ (convert : Value → Number) {Row : Type 0} (row_of : Value → Row) (keys : List Text)
    (resource : Value) where
  abbrev result : ResourceData Row
  result = normalize_rows convert row_of keys resource

  length-kept :
      (xs : List Value)
      → length (map row_of (take 500 (select is_record xs)))
        ≡ length (take 500 (select is_record xs))
  length-kept xs = length-map row_of (take 500 (select is_record xs))

  no_row_missing :
      (xs : List Value)
      → ltb (length (map row_of (take 500 (select is_record xs)))) (length xs) ≡ false
      → map row_of (take 500 (select is_record xs)) ≡ map row_of xs
  no_row_missing xs h = ap (map row_of) (
      take-all 500 is_record xs (
        ground (
          arith,
          length-kept xs,
          length-select is_record xs,
          length-take 500 (select is_record xs),
        )))

  all_false : (a b c : Bool) → (a || b || c) ≡ false → (a ≡ false) × ((b ≡ false) × (c ≡ false))
  all_false a b c h = ground arith

  -- When the result of an object does not say that it is truncated, it has a row for each element
  -- of the array that the server sent, in their order, the server's count of all rows is no larger,
  -- and the server did not say that it had left rows out.
  pub normalize_rows_complete :
      is_record resource ≡ true
      → result.truncated ≡ false
      → ((result.rows ≡ map row_of (raw_rows resource)) × (result.total_rows ≤ length result.rows))
        × (truthy (property (codes "truncated") resource) ≡ false)
  unfolding normalize_rows
  normalize_rows_complete h t =
      let d : ResourceData Row = normalize_object convert row_of keys resource in
      let e : result ≡ d = rw h refl in
      let (said, (rows_short, total_short)) =
        all_false (truthy (property (codes "truncated") resource))
          (ltb (length d.rows) (length (raw_rows resource))) (ltb (length d.rows) d.total_rows)
          (subst (λ r. r.truncated ≡ false) e t) in
      subst
        (λ r.
          ((r.rows ≡ map row_of (raw_rows resource)) × (r.total_rows ≤ length r.rows))
          × (truthy (property (codes "truncated") resource) ≡ false))
        (sym e) ((no_row_missing (raw_rows resource) rows_short, ground (arith, total_short)), said)

  -- At most 500 rows are kept.
  rows-length : length result.rows ≤ 500
  unfolding normalize_rows
  rows-length = ground (
    arith,
    length-kept (raw_rows resource),
    length-take 500 (select is_record (raw_rows resource)),
  )
