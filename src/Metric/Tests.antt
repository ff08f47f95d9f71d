-- ===== src/Metric/Tests.antt =====
-- The metric pages at concrete values.
use centos_info_collect.Base.{ℕ, ◌≤◌, Text, [], ◌∷◌, codes, length, All, list_eq, ℕ_eq}
use centos_info_collect.Metric.Values.{
  Number, nan, natural, Value, string, number, array, object, no_values, values, no_entries,
  entries,
}
use centos_info_collect.Metric.Cleaning.{
  IsShort, ShowsSome, entries_of, normalize_metric_resource_labels,
  normalize_metric_resource_labels-IsSafe,
}

-- No text of these tests is a number.
abbrev convert : Value → Number
convert v = nan

abbrev lower_other : ℕ → Text
lower_other c = c ∷ []

abbrev config : ℕ → Text → Value
config id name =
    object
      (entries (codes "id") (number (natural id)) (entries (codes "name") (string name) no_entries))

abbrev configs : Value
configs = array (
    values (config 3 (codes "main"))
      (values (config 0 (codes "zero")) (values (config 3 (codes "again")) no_values)))

abbrev labels : Value
labels = object (
    entries (codes "job") (string (codes "node"))
      (entries (codes "api_key") (string (codes "x")) no_entries))

normalize_metric_resource_labels-IsSafe_example :
    (length (normalize_metric_resource_labels lower_other labels) ≤ 24)
    × All
        (λ l. IsShort lower_other l × ShowsSome lower_other (entries_of lower_other labels) l)
        (normalize_metric_resource_labels lower_other labels)
normalize_metric_resource_labels-IsSafe_example =
    normalize_metric_resource_labels-IsSafe lower_other labels

abbrev resource : Value
resource = object (
    entries (codes "rows")
      (array
        (values (object (entries (codes "name") (string (codes "node")) no_entries)) no_values))
      no_entries)
