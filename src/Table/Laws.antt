-- ===== src/Table/Laws.antt =====
-- Sorting, searching and the actions on rows.
use centos_info_collect.Base.{
  ℕ, zero, suc, ◌<◌, ◌≡◌, refl, ap, subst, ◌↔◌, ◌≢◌, inl, inr, Bool, Option, none, some, List, [],
  ◌∷◌, Text, get_elem?, take, All, ℕ_eq, arith, Option-cases, list_eq,
}
use centos_info_collect.Table.{
  Row, ModernDataTable, elements, new, sortable_index, click_header, search, edit,
  handle_row_action,
}

get_elem?-elements :
    (i : ℕ) (rs : List Row) {e : ℕ}
    → get_elem? (elements rs) i ≡ some e
    → (r : Row) × (get_elem? rs i ≡ some r) × (r.element ≡ e)
get_elem?-elements i [] h = cc
get_elem?-elements zero (r ∷ rs) h = (r, refl, ground arith)
get_elem?-elements (suc i) (r ∷ rs) h = get_elem?-elements i rs h

-- How many headers there are before a column, each of them sortable.
abbrev pub AllSortable : List (Option Text) → Type 0
AllSortable = All (λ h. h ≢ none)

sortable_index_le : (i : ℕ) (hs : List (Option Text)) → sortable_index i hs < suc i
unfolding sortable_index
sortable_index_le i [] = omega arith
sortable_index_le zero (h ∷ hs) = omega arith
sortable_index_le (suc i) (none ∷ hs) = omega (arith, sortable_index_le i hs)
sortable_index_le (suc i) (some t ∷ hs) = omega (arith, sortable_index_le i hs)

sortable_index_iff :
    (i : ℕ) (hs : List (Option Text)) {h : Option Text}
    → get_elem? hs i ≡ some h
    → (sortable_index i hs ≡ i) ↔ AllSortable (take i hs)
unfolding sortable_index
sortable_index_iff i [] e = cc
sortable_index_iff zero (h ∷ hs) e = (λ _. tt, λ _. refl)
sortable_index_iff (suc i) (none ∷ hs) e =
    (λ p. absurd (omega (arith, sortable_index_le i hs)), λ a. absurd (a.0 refl))
sortable_index_iff (suc i) (some t ∷ hs) e =
    let (to, from) = sortable_index_iff i hs e in
    (λ p. ((λ q. cc), to (omega arith)), λ a. ap suc (from a.1))

module _ (number_before date_before : Text → Text → Bool) where
  -- A click on a sortable header sorts by its own column exactly if every header before it is
  -- sortable too.
  pub click_header-own_column_iff :
      (column : ℕ) (t : ModernDataTable) (data_type : Text)
      → get_elem? t.headers column ≡ some (some data_type)
      → ((click_header number_before date_before column t).sort_column ≡ some column)
        ↔ AllSortable (take column t.headers)
  unfolding click_header
  click_header-own_column_iff column t data_type e =
      let (to, from) = sortable_index_iff column t.headers e in
      rw (e, click_header) (λ h. to (ground arith), λ a. ap some (from a))

-- What a user does with a table.
pub data Event : Type 0 where
  clicks : ℕ → Event
  searches : Text → Event

module _ (number_before date_before : Text → Text → Bool) (lower : Text → Text) where
  abbrev pub step : ModernDataTable → Event → ModernDataTable
  step t (clicks column) = click_header number_before date_before column t
  step t (searches query) = search lower query t

  abbrev pub run : ModernDataTable → List Event → ModernDataTable
  run t [] = t
  run t (e ∷ es) = run (step t e) es

  step-body :
      (t : ModernDataTable) (e : Event)
      → t.body ≡ elements t.filtered
      → (step t e).body ≡ elements (step t e).filtered
  unfolding click_header search
  step-body t (searches query) h = refl
  step-body t (clicks column) h = elim (Option-cases (get_elem? t.headers column)) [
    | inl e ↦ rw (e, click_header) h
    | inr (none, e) ↦ rw (e, click_header) h
    | inr (some ty, e) ↦ rw (e, click_header) refl
  ]

  run-body :
      (t : ModernDataTable) (es : List Event)
      → t.body ≡ elements t.filtered
      → (run t es).body ≡ elements (run t es).filtered
  run-body t [] h = h
  run-body t (e ∷ es) h = run-body (step t e) es (step-body t e h)

  -- After any clicks and searches, an action on the row at a place of the page is dispatched with
  -- the data of the row that stands there.
  pub handle_row_action-run :
      (headers : List (Option Text)) (page : List (ℕ × List Text)) (es : List Event) (i e : ℕ)
      → get_elem? (run (new headers page) es).body i ≡ some e
      → (r : Row) × (handle_row_action edit i (run (new headers page) es) ≡ some (edit, some r))
        × (r.element ≡ e)
  unfolding handle_row_action new
  handle_row_action-run headers page es i e h =
      let t = run (new headers page) es in
      let shown : get_elem? (elements t.filtered) i ≡ some e =
        subst (λ b. get_elem? b i ≡ some e) (run-body (new headers page) es refl) h in
      let (r, found, same) = get_elem?-elements i t.filtered shown in
      (r, ap (λ o. some (edit, o)) found, same)
