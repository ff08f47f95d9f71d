-- ===== src/Metric/Values.antt =====
-- The values of JavaScript that `JSON.parse` gives, and the conversions that
-- static/js/ops-vue-pages.js makes of them.
use centos_info_collect.Base.{
  ℕ, Bool, true, false, not, ◌&&◌, Option, none, some, List, [], ◌∷◌, Text, null, ltb, ◌==◌, ℕ_eq,
  list_eq, if◌then◌else◌,
}
use centos_info_collect.Metric.Decimals.{to_text}

-- A number that is an integer, another finite number by its sign and its bits, an infinity by its
-- sign, or `NaN`. `-0`, which no test of the code tells from 0, is `natural 0`.
pub data Number : Type 0 where
  natural : ℕ → Number
  negative : ℕ → Number
  fraction : Bool → ℕ → Number
  infinite : Bool → Number
  nan : Number

mutual
  pub data Value : Type 0 where
    null_value : Value
    undefined : Value
    boolean : Bool → Value
    number : Number → Value
    string : Text → Value
    array : Values → Value
    object : Entries → Value

  pub data Values : Type 0 where
    no_values : Values
    values : Value → Values → Values

  -- the own properties of an object
  pub data Entries : Type 0 where
    no_entries : Entries
    entries : Text → Value → Entries → Entries

abbrev pub elements : Values → List Value
elements no_values = []
elements (values v vs) = v ∷ elements vs

abbrev pub pairs : Entries → List (Text × Value)
pairs no_entries = []
pairs (entries k v es) = (k, v) ∷ pairs es

abbrev pub lookup : Text → List (Text × Value) → Value
lookup key [] = undefined
lookup key ((k, v) ∷ es) = if k == key then v else lookup key es

-- `value.key`, for a key that is no property of the prototypes; that of `null` and `undefined`,
-- which the code does not read, is `undefined` here.
abbrev pub property : Text → Value → Value
property key (object es) = lookup key (pairs es)
property key v = undefined

-- `Boolean(value)`
abbrev pub truthy : Value → Bool
truthy null_value = false
truthy undefined = false
truthy (boolean b) = b
truthy (number (natural n)) = ltb 0 n
truthy (number nan) = false
truthy (number n) = true
truthy (string s) = not (null s)
truthy (array vs) = true
truthy (object es) = true

-- `Array.isArray(value) ? value : []`
abbrev pub array_or_empty : Value → List Value
array_or_empty (array vs) = elements vs
array_or_empty v = []

-- `value && typeof value === 'object' && !Array.isArray(value)`
abbrev pub is_record : Value → Bool
is_record (object es) = true
is_record v = false

-- `typeof value === 'string' ? value : ''`
abbrev pub string_or_empty : Value → Text
string_or_empty (string s) = s
string_or_empty v = []

-- `Number(value)`, given the number that a string and a compound value are converted to
abbrev pub to_number : (Value → Number) → Value → Number
to_number convert null_value = natural 0
to_number convert undefined = nan
to_number convert (boolean b) = if b then natural 1 else natural 0
to_number convert (number n) = n
to_number convert v = convert v

-- `Number.isSafeInteger(number) && number >= 0`, with the integer
abbrev pub safe_natural : Number → Option ℕ
safe_natural (natural n) = if ltb n 9007199254740992 then some n else none
safe_natural n = none

abbrev pub is_finite : Number → Bool
is_finite (infinite s) = false
is_finite nan = false
is_finite n = true

-- `number >= 0`
abbrev pub is_nonnegative : Number → Bool
is_nonnegative (natural n) = true
is_nonnegative (fraction sign bits) = not sign
is_nonnegative (infinite sign) = not sign
is_nonnegative n = false

-- The values that the code's guard `value === null || value === undefined || value === '' ||
-- typeof value === 'boolean'` holds of.
abbrev pub is_blank : Value → Bool
is_blank null_value = true
is_blank undefined = true
is_blank (boolean b) = true
is_blank (string s) = null s
is_blank v = false

-- `normalizeMetricPrometheusId`
unfoldable pub normalize_metric_prometheus_id : (Value → Number) → Value → Text
normalize_metric_prometheus_id convert v = elim (safe_natural (to_number convert v)) [
  | none ↦ []
  | some n ↦ if ltb 0 n then to_text n else []
]

-- `safeMetricResourceCount`
unfoldable pub safe_metric_resource_count : (Value → Number) → Value → ℕ → ℕ
safe_metric_resource_count convert v fallback =
    if is_blank v
    then fallback
    else elim (safe_natural (to_number convert v)) [ none ↦ fallback | some n ↦ n ]

-- `safeMetricResourceSeconds`
unfoldable pub safe_metric_resource_seconds : (Value → Number) → Value → Option Number
safe_metric_resource_seconds convert v =
    if is_blank v
    then none
    else (let seconds = to_number convert v in
        if is_finite seconds && is_nonnegative seconds then some seconds else none)
