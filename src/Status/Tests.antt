-- ===== src/Status/Tests.antt =====
-- The states of the servers at concrete events.
use centos_info_collect.Base.{refl, true, Text, none, some, List, [], ◌∷◌, codes, list_eq, ℕ_eq}
use centos_info_collect.Connection.{TestResult}
use centos_info_collect.Status.{StatusView, ServerStatusManager, starts, stops, begins, run}
use centos_info_collect.Status.Laws.{IsSingle, run-IsSingle}
use centos_info_collect.Status.Dashboard
use centos_info_collect.Status.Dashboard.{IsKnown, update_all-counts}

abbrev badge : StatusView
badge = record {
  inner_html = [];
  class_name = codes "badge bg-secondary";
  indicator = none;
  last_check = some [];
}

abbrev manager : ServerStatusManager
manager = record {
  views = (codes "1", badge) ∷ (codes "2", badge) ∷ [];
  status_cache = [];
  auto_update_timer = none;
  running = [];
  next_timer = 1;
}

run-IsSingle_example :
    IsSingle (run manager (starts ∷ starts ∷ begins (codes "1") ∷ stops ∷ starts ∷ []))
run-IsSingle_example =
    run-IsSingle manager (starts ∷ starts ∷ begins (codes "1") ∷ stops ∷ starts ∷ []) refl

abbrev result : TestResult
result = record {
  success = true;
  message = codes "连接正常";
  server_data = record {
    linux_ip = codes "10.0.0.7";
    linux_port = codes "22";
    linux_user = codes "root";
    linux_passwd = codes "secret";
  };
}

abbrev page : Dashboard.Dashboard
page = record {
  status_cache = [];
  indicators = [];
  metrics = record { online_count = 0; offline_count = 0 };
}

abbrev replies : List (Text × Dashboard.Reply)
replies =
    (codes "1", Dashboard.answered (some (codes "online")))
    ∷ (codes "2", Dashboard.failed)
    ∷ (codes "3", Dashboard.answered (some (codes "unknown")))
    ∷ []
