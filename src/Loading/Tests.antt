-- ===== src/Loading/Tests.antt =====
-- The loaders at a concrete history.
use centos_info_collect.Base.{◌≡◌, false, List, [], ◌∷◌, codes, ℕ_eq}
use centos_info_collect.Loading.{new, global, show, hide, is_visible, Event, shows, fades, run}
use centos_info_collect.Loading.Laws.{show-hide-invisible}

abbrev later : List Event
later = fades ∷ shows global 2 (codes "again") ∷ []

show-hide-invisible_example :
    is_visible (run (codes "...") (hide 1 (show (codes "...") global 1 (codes "wait") new)) later)
    ≡ false
show-hide-invisible_example = show-hide-invisible (codes "...") (codes "wait") 1 new later
