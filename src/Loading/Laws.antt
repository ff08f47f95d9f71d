-- ===== src/Loading/Laws.antt =====
-- What becomes of the global loader.
use centos_info_collect.Base.{
  ℕ, ◌≡◌, refl, true, false, not, ◌&&◌, Option, none, some, List, [], ◌∷◌, ◌++◌, Text, elem, remove,
  distinct, distinct-snoc, distinct-remove, ℕ_eq, arith, elem-snoc, elem-remove, beq_self,
}
use centos_info_collect.Loading.{
  GlobalLoader, remove_loader, finish_fade, LoadingManager, new, Target, add_active, global,
  element, show_global_loader, show, hide, hide_each, hide_all, is_visible, Event, shows, hides,
  fades, step, run,
}

-- The global loader has been made and is not in the document.
abbrev pub IsDetached : Option GlobalLoader → Type 0
IsDetached none = ⊥
IsDetached (some g) = g.attached ≡ false

step-IsDetached :
    (loading : Text) (m : LoadingManager) (e : Event)
    → IsDetached m.global_loader
    → IsDetached (step loading m e).global_loader
unfolding step
step-IsDetached loading m (shows global id message) d = ground arith
step-IsDetached loading m (shows (element true) id message) d = d
step-IsDetached loading m (shows (element false) id message) d = d
step-IsDetached loading m (hides id) d = ground arith
step-IsDetached loading m fades d = ground arith

run-IsDetached :
    (loading : Text) (m : LoadingManager) (es : List Event)
    → IsDetached m.global_loader
    → IsDetached (run loading m es).global_loader
unfolding run
run-IsDetached loading m [] d = d
run-IsDetached loading m (e ∷ es) d =
    run-IsDetached loading (step loading m e) es (step-IsDetached loading m e d)

invisible : (m : LoadingManager) → IsDetached m.global_loader → is_visible m ≡ false
invisible m d = ground arith

add_active-elem : (id : ℕ) (m : LoadingManager) → elem id (add_active id m).active_loaders ≡ true
add_active-elem id m = ground (arith, elem-snoc id id m.active_loaders, beq_self id)

show-elem :
    (loading message : Text) (target : Target) (id : ℕ) (m : LoadingManager)
    → elem id (show loading target id message m).active_loaders ≡ true
unfolding show
show-elem loading message global id m = add_active-elem id (show_global_loader loading id message m)
show-elem loading message (element true) id m =
    add_active-elem id (record m { element_loaders = m.element_loaders ++ id ∷ [] })
show-elem loading message (element false) id m = add_active-elem id m

-- After `show` of the page its loader carries the identifier.
abbrev Carries : ℕ → Option GlobalLoader → Type 0
Carries id none = ⊥
Carries id (some g) = g.loader_id ≡ some id

show-Carries :
    (loading message : Text) (id : ℕ) (m : LoadingManager)
    → Carries id (show loading global id message m).global_loader
unfolding show
show-Carries loading message id m = refl

hide-IsDetached :
    (id : ℕ) (m : LoadingManager)
    → elem id m.active_loaders ≡ true
    → Carries id m.global_loader
    → IsDetached (hide id m).global_loader
unfolding hide
hide-IsDetached id m a c = ground (arith, beq_self id)

remove-absent : (id : ℕ) (xs : List ℕ) → elem id xs ≡ false → remove id xs ≡ xs
unfolding elem remove
remove-absent id [] a = refl
remove-absent id (x ∷ xs) a = ground (arith, remove-absent id xs)

remove_loader-active :
    (id : ℕ) (m : LoadingManager) → (remove_loader id m).active_loaders ≡ m.active_loaders
unfolding remove_loader
remove_loader-active id m = ground arith

hide-active :
    (id : ℕ) (m : LoadingManager) → (hide id m).active_loaders ≡ remove id m.active_loaders
unfolding hide
hide-active id m = ground (arith, remove-absent id m.active_loaders, remove_loader-active id m)

hide_each-distinct :
    (ids : List ℕ) (m : LoadingManager)
    → distinct m.active_loaders ≡ true
    → distinct (hide_each ids m).active_loaders ≡ true
unfolding hide_each
hide_each-distinct [] m d = d
hide_each-distinct (id ∷ ids) m d =
    hide_each-distinct ids (hide id m)
      (rw (hide-active id m) (distinct-remove id m.active_loaders d))

hide_each-active :
    (ids : List ℕ) (j : ℕ) (m : LoadingManager)
    → distinct m.active_loaders ≡ true
    → elem j (hide_each ids m).active_loaders ≡ (elem j m.active_loaders && not (elem j ids))
unfolding hide_each elem
hide_each-active [] j m d = ground arith
hide_each-active (id ∷ ids) j m d = ground (
  arith,
  hide_each-active ids j (hide id m),
  hide-active id m,
  elem-remove j id m.active_loaders,
  distinct-remove id m.active_loaders,
)

no_elem : (xs : List ℕ) → ((j : ℕ) → elem j xs ≡ false) → xs ≡ []
unfolding elem
no_elem [] e = refl
no_elem (x ∷ xs) e = ground (arith, e x, beq_self x)

add_active-distinct :
    (id : ℕ) (m : LoadingManager)
    → distinct m.active_loaders ≡ true
    → distinct (add_active id m).active_loaders ≡ true
add_active-distinct id m d = ground (arith, distinct-snoc id m.active_loaders)

step-distinct :
    (loading : Text) (m : LoadingManager) (e : Event)
    → distinct m.active_loaders ≡ true
    → distinct (step loading m e).active_loaders ≡ true
unfolding step show show_global_loader finish_fade
step-distinct loading m (shows global id message) d =
    add_active-distinct id (show_global_loader loading id message m) d
step-distinct loading m (shows (element true) id message) d =
    add_active-distinct id (record m { element_loaders = m.element_loaders ++ id ∷ [] }) d
step-distinct loading m (shows (element false) id message) d = add_active-distinct id m d
step-distinct loading m (hides id) d =
    ground (arith, hide-active id m, distinct-remove id m.active_loaders)
step-distinct loading m fades d = ground arith

run-distinct :
    (loading : Text) (m : LoadingManager) (es : List Event)
    → distinct m.active_loaders ≡ true
    → distinct (run loading m es).active_loaders ≡ true
unfolding run
run-distinct loading m [] d = d
run-distinct loading m (e ∷ es) d =
    run-distinct loading (step loading m e) es (step-distinct loading m e d)

-- From a new manager, after any calls and timers, each active loader is in the set once, and
-- `hideAll` leaves none active.
pub hide_all-active :
    (loading : Text) (es : List Event)
    → (distinct (run loading new es).active_loaders ≡ true)
      × ((hide_all (run loading new es)).active_loaders ≡ [])
unfolding distinct
hide_all-active loading es =
    let m = run loading new es in
    let d : distinct m.active_loaders ≡ true = run-distinct loading new es refl in
    (
      d,
      no_elem (hide_all m).active_loaders
          (λ j. ground (arith, hide_each-active m.active_loaders j m)),
    )

-- Once the page's loader was shown under an identifier and hidden under it, then whatever calls
-- and timers follow, and whether or not they show the page's loader again, the user does not see
-- that loader: `hide` has taken its element out of the document, and `showGlobalLoader` makes one
-- only when `globalLoader` is null.
pub show-hide-invisible :
    (loading message : Text) (id : ℕ) (m : LoadingManager) (es : List Event)
    → is_visible (run loading (hide id (show loading global id message m)) es) ≡ false
show-hide-invisible loading message id m es =
    let shown = show loading global id message m in
    invisible (run loading (hide id shown) es) (
      run-IsDetached loading (hide id shown) es (
        hide-IsDetached id shown (show-elem loading message global id m)
          (show-Carries loading message id m)))
