-- ===== src/Table.antt =====
-- The class `ModernDataTable` of static/js/custom.js. A row element is a number.
pub mod Sorting
pub mod Laws
mod Tests
use centos_info_collect.Base.{
  ℕ, zero, suc, ◌+◌, Bool, true, false, not, ◌&&◌, ◌||◌, Option, none, some, List, [], ◌∷◌, ◌++◌,
  Text, codes, trim, null, includes, any, select, map, length, get_elem?, ltb, ◌==◌, ℕ_eq, list_eq,
  if◌then◌else◌,
}
use centos_info_collect.Table.Sorting.{sort_by}

pub data Direction : Type 0 where
  asc desc : Direction

pub record Row : Type 0 where
  pub index : ℕ
  pub element : ℕ
  pub cells : List Text

-- `headers` are the values of `data-sortable` of the header cells, `marks` their sort classes,
-- `rows` and `filtered` the fields `data` and `filteredData`, `body` the children of `tbody`, and
-- `stats` the two numbers of the line below the table.
pub record ModernDataTable : Type 0 where
  pub headers : List (Option Text)
  pub marks : List (Option Direction)
  pub rows : List Row
  pub filtered : List Row
  pub sort_column : Option ℕ
  pub direction : Direction
  pub body : List ℕ
  pub stats : ℕ × ℕ

abbrev pub elements : List Row → List ℕ
elements = map (λ r. r.element)

-- `<` on strings: by code units
unfoldable pub text_before : Text → Text → Bool
text_before [] [] = false
text_before [] (_ ∷ _) = true
text_before (_ ∷ _) [] = false
text_before (c ∷ s) (d ∷ t) = if c == d then text_before s t else ltb c d

unfoldable pub extract_rows : ℕ → List (ℕ × List Text) → List Row
unfolding trim
extract_rows i [] = []
extract_rows i ((element, texts) ∷ rest) =
    record { index = i; element = element; cells = map trim texts } ∷ extract_rows (i + 1) rest

unfoldable pub update_stats : ModernDataTable → ModernDataTable
update_stats t = record t { stats = (length t.filtered, length t.rows) }

unfoldable pub render : ModernDataTable → ModernDataTable
unfolding update_stats
render t = update_stats (record t { body = elements t.filtered })

-- the constructor, on the rows of the page
unfoldable pub new : List (Option Text) → List (ℕ × List Text) → ModernDataTable
unfolding extract_rows
new headers page = record {
  headers = headers;
  marks = map (λ _. none) headers;
  rows = extract_rows 0 page;
  filtered = extract_rows 0 page;
  sort_column = none;
  direction = asc;
  body = elements (extract_rows 0 page);
  stats = (0, 0);
}

abbrev pub is_column : Option ℕ → ℕ → Bool
is_column none i = false
is_column (some j) i = j == i

abbrev pub is_desc : Direction → Bool
is_desc asc = false
is_desc desc = true

-- the class of one header cell, all others cleared
unfoldable pub mark_at : ℕ → Direction → List (Option Text) → List (Option Direction)
mark_at i d [] = []
mark_at zero d (h ∷ hs) = some d ∷ map (λ _. none) hs
mark_at (suc i) d (h ∷ hs) = none ∷ mark_at i d hs

-- the direction that a sort of this column takes
abbrev pub next_direction : ℕ → ModernDataTable → Direction
next_direction i t = if not (is_column t.sort_column i) || is_desc t.direction then asc else desc

-- the position of a header among the sortable ones, which is the index that its listener gets
unfoldable pub sortable_index : ℕ → List (Option Text) → ℕ
sortable_index i [] = 0
sortable_index zero (h ∷ hs) = 0
sortable_index (suc i) (none ∷ hs) = sortable_index i hs
sortable_index (suc i) (some _ ∷ hs) = suc (sortable_index i hs)

-- `number_before` and `date_before` compare two cells by `<` as `parseFloat` and `Date` read them.
module _ (number_before date_before : Text → Text → Bool) where
  unfoldable pub cell_before : Text → Text → Text → Bool
  unfolding text_before
  cell_before data_type a b =
      if data_type == codes "number"
      then number_before a b
      else if data_type == codes "date"
      then date_before a b
      else text_before a b

  -- A missing cell is neither less nor greater than another.
  abbrev pub optional_before : Text → Option Text → Option Text → Bool
  optional_before data_type none b = false
  optional_before data_type (some a) none = false
  optional_before data_type (some a) (some b) = cell_before data_type a b

  abbrev pub row_before : ℕ → Text → Direction → Row → Row → Bool
  row_before i data_type asc a b =
      optional_before data_type (get_elem? a.cells i) (get_elem? b.cells i)
  row_before i data_type desc a b =
      optional_before data_type (get_elem? b.cells i) (get_elem? a.cells i)

  unfoldable pub sort : ℕ → Text → ModernDataTable → ModernDataTable
  unfolding render mark_at
  sort i data_type t =
      let d = next_direction i t in
      render (record t {
        marks = mark_at i d t.headers;
        sort_column = some i;
        direction = d;
        filtered = sort_by (row_before i data_type d) t.filtered;
      })

  -- the listener that `setupSorting` gives to the header of a column
  unfoldable pub click_header : ℕ → ModernDataTable → ModernDataTable
  unfolding sort sortable_index
  click_header column t = elim (get_elem? t.headers column) [
    | none ↦ t
    | some none ↦ t
    | some (some data_type) ↦ sort (sortable_index column t.headers) data_type t
  ]

-- `lower` is `toLowerCase`.
module _ (lower : Text → Text) where
  unfoldable pub matches : Text → Row → Bool
  unfolding includes
  matches term row = any (λ cell. includes term (lower cell)) row.cells

  unfoldable pub search : Text → ModernDataTable → ModernDataTable
  unfolding render
  search query t = render (record t {
    filtered = if null (trim query) then t.rows else select (matches (lower query)) t.rows;
  })

pub data RowAction : Type 0 where
  edit delete view unknown : RowAction

-- The event that `handleRowAction` dispatches, with the row that it carries; an unknown action
-- dispatches none.
unfoldable pub handle_row_action : RowAction → ℕ → ModernDataTable → Option (RowAction × Option Row)
handle_row_action unknown i t = none
handle_row_action action i t = some (action, get_elem? t.filtered i)
