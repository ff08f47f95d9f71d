-- ===== src/Metric/Integrations/Tests.antt =====
-- A list of integrations with a repeated name and a repeated identifier.
use centos_info_collect.Base.{Text, codes}
use centos_info_collect.Metric.Values.{
  Number, nan, natural, Value, string, number, array, object, no_values, values, no_entries,
  entries,
}
use centos_info_collect.Metric.Integrations.{normalize_monitor_integration_list}
use centos_info_collect.Metric.Integrations.Named.{
  IsShown, normalize_monitor_integration_list-IsShown,
}

abbrev convert : Value → Number
convert v = nan

abbrev named : Number → Text → Value
named n name =
    object (entries (codes "id") (number n) (entries (codes "name") (string name) no_entries))

abbrev sent : Value
sent = array (
    values (named (natural 3) (codes "main")) (
      values (named (natural 4) (codes " main "))
        (values (named (natural 3) (codes "other")) no_values)))

normalize_monitor_integration_list-IsShown_example :
    IsShown
      (codes "prometheus")
      (normalize_monitor_integration_list convert (codes "prometheus") sent)
normalize_monitor_integration_list-IsShown_example =
    normalize_monitor_integration_list-IsShown convert (codes "prometheus") sent
