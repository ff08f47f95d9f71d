-- ===== src/Metric/Dashboard/FilterTests.antt =====
-- The rows of the dashboard for concrete pods and filters.
use centos_info_collect.Base.{ℕ, Bool, false, Text, Option, none, some, List, [], ◌∷◌, codes, ltb}
use centos_info_collect.Metric.Dashboard.Filters.{Pod, healthy, critical, Status}

abbrev name_before : Text → Text → Bool
name_before s t = false

abbrev less : ℕ → ℕ → Bool
less a b = ltb a b

abbrev pod : Text → Status → Option ℕ → Pod ℕ
pod name status cpu = record {
  name = name;
  cluster = codes "c";
  namespace = codes "n";
  status = status;
  cpu_value = cpu;
  memory_value = none;
  disk_value = none;
}

abbrev pods : List (Pod ℕ)
pods =
    pod (codes "a") healthy none
    ∷ pod (codes "b") critical (some 90)
    ∷ pod (codes "d") healthy (some 40)
    ∷ []
