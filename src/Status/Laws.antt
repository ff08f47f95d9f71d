-- ===== src/Status/Laws.antt =====
-- The timer of the automatic update, and the cache of states.
use centos_info_collect.Base.{
  ℕ, ◌≡◌, ◌↔◌, ap, refl, Bool, true, false, Option, none, some, List, [], ◌∷◌, Text, codes, get,
  remove, ◌==◌, ℕ_eq, list_eq, arith, get-insert, if◌then◌else◌, beq_self,
}
use centos_info_collect.Connection.{TestResult, resolved, rejected}
use centos_info_collect.Status.{
  StatusView, ServerStatusManager, CachedStatus, Event, begins, ends, fetches, starts, stops,
  on_view, end_update, get_cached_status, set_last_check, step, run, shown_as, status_name,
  set_status_online, set_status_offline,
}

-- The browser runs the interval that the manager holds, and no other.
abbrev pub held : Option ℕ → List ℕ
held none = []
held (some timer) = timer ∷ []

abbrev pub IsSingle : ServerStatusManager → Type 0
IsSingle m = m.running ≡ held m.auto_update_timer

on_view-same :
    (id : Text) (f : StatusView → StatusView) (m : ServerStatusManager)
    → ((on_view id f m).running ≡ m.running)
      × ((on_view id f m).auto_update_timer ≡ m.auto_update_timer)
      × ((on_view id f m).status_cache ≡ m.status_cache)
unfolding on_view
on_view-same id f m = ground arith

step-IsSingle : (m : ServerStatusManager) (e : Event) → IsSingle m → IsSingle (step m e)
unfolding step remove
step-IsSingle m (begins id) h = ground arith
step-IsSingle m (ends id (resolved r) time) h = ground arith
step-IsSingle m (ends id (rejected r) time) h = ground arith
step-IsSingle m (fetches id on time) h = ground arith
step-IsSingle m starts h = ground arith
step-IsSingle m stops h = ground arith

-- After any events, the browser runs exactly the interval that the manager holds: a restart leaves
-- no interval behind, and a stop leaves none at all.
pub run-IsSingle : (m : ServerStatusManager) (es : List Event) → IsSingle m → IsSingle (run m es)
unfolding run
run-IsSingle m [] h = h
run-IsSingle m (e ∷ es) h = run-IsSingle (step m e) es (step-IsSingle m e h)

get-on_view :
    (id j : Text) (f : StatusView → StatusView) (m : ServerStatusManager) {w : StatusView}
    → get id m.views ≡ some w
    → get j (on_view id f m).views ≡ (if id == j then some (f w) else get j m.views)
unfolding on_view
get-on_view id j f m {w} e = rw (e, on_view) (get-insert id j (f w) m.views)

badge_iff :
    (ok : Bool) (w : StatusView)
    → ((shown_as ok w).class_name ≡ codes "badge bg-success") ↔ (status_name ok ≡ codes "online")
unfolding set_status_online set_status_offline
badge_iff true w = (λ _. refl, λ _. refl)
badge_iff false w = (λ h. cc, λ h. cc)

-- After the check of a server with a badge has come back, the cache and the badge of that server
-- agree on whether it is online, and the cache and the badge of another server are as before.
pub end_update_agrees :
    (id j : Text) (r : TestResult) (time : Text) (m : ServerStatusManager) (w : StatusView)
    → get id m.views ≡ some w
    → (id == j) ≡ false
    → let m' = end_update id (resolved r) time m in
      ((c : CachedStatus) × (v : StatusView) × (get_cached_status id m' ≡ some c)
        × (get id m'.views ≡ some v)
        × ((v.class_name ≡ codes "badge bg-success") ↔ (c.status ≡ codes "online")))
      × (get_cached_status j m' ≡ get_cached_status j m)
      × (get j m'.views ≡ get j m.views)
unfolding end_update get_cached_status
end_update_agrees id j r time m w e other = (
  (
    record { status = status_name r.success; last_check = time; message = r.message },
    set_last_check time (shown_as r.success w),
    rw (get-insert, beq_self) refl,
    rw (get-on_view id id _ m e, beq_self) refl,
    badge_iff r.success w,
  ),
  rw (get-insert, other) (ap (get j) (on_view-same id _ m).2),
  rw (get-on_view id j _ m e, other) refl,
)

-- After the check of a server has failed, the cache still answers what it answered before, for
-- that server and all others.
pub end_update_failed :
    (id j reason time : Text) (m : ServerStatusManager)
    → get_cached_status j (end_update id (rejected reason) time m) ≡ get_cached_status j m
unfolding end_update get_cached_status
end_update_failed id j reason time m = ground (arith, on_view-same id _ m)
