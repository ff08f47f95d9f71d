-- ===== src/Loading.antt =====
-- The class `LoadingManager` of static/js/custom.js, with the loaders on the page.
pub mod Laws
mod Tests
use centos_info_collect.Base.{
  ℕ, zero, suc, Bool, true, false, not, ◌&&◌, Option, none, some, List, [], ◌∷◌, ◌++◌, Text, null,
  elem, remove, ◌==◌, ℕ_eq, if◌then◌else◌,
}

-- The element `globalLoader`: whether it is in the document, its `data-loader-id`, whether its
-- `display` is `flex` and its `opacity` 1, and the text of its message.
pub record GlobalLoader : Type 0 where
  pub attached : Bool
  pub loader_id : Option ℕ
  pub displayed : Bool
  pub opaque : Bool
  pub message : Text

-- `element_loaders` are the loaders over elements in the document, by their `data-loader-id`, and
-- `fading` counts the pending timers that hide the global loader.
pub record LoadingManager : Type 0 where
  pub active_loaders : List ℕ
  pub global_loader : Option GlobalLoader
  pub element_loaders : List ℕ
  pub fading : ℕ

abbrev pub new : LoadingManager
new = record { active_loaders = []; global_loader = none; element_loaders = []; fading = 0 }

-- The target of `show`: the page, or an element with whether it is found.
pub data Target : Type 0 where
  global : Target
  element : Bool → Target

abbrev pub create_global_loader : Text → GlobalLoader
create_global_loader loading = record {
  attached = true;
  loader_id = none;
  displayed = false;
  opaque = true;
  message = loading;
}

abbrev pub existing : Text → Option GlobalLoader → GlobalLoader
existing loading none = create_global_loader loading
existing loading (some g) = g

-- `loading` is the text of a new loader.
unfoldable pub show_global_loader : Text → ℕ → Text → LoadingManager → LoadingManager
show_global_loader loading id message m =
    let g = existing loading m.global_loader in
    record m {
      global_loader = some (record g {
        displayed = true;
        opaque = true;
        loader_id = some id;
        message = if null message then g.message else message;
      });
    }

abbrev pub add_active : ℕ → LoadingManager → LoadingManager
add_active id m = record m {
  active_loaders =
      if elem id m.active_loaders then m.active_loaders else m.active_loaders ++ id ∷ [];
}

unfoldable pub show : Text → Target → ℕ → Text → LoadingManager → LoadingManager
unfolding show_global_loader
show loading global id message m = add_active id (show_global_loader loading id message m)
show loading (element true) id message m =
    add_active id (record m { element_loaders = m.element_loaders ++ id ∷ [] })
show loading (element false) id message m = add_active id m

abbrev pub carries : ℕ → Option ℕ → Bool
carries id none = false
carries id (some j) = j == id

-- the global loader is what `querySelector` finds
abbrev pub is_found : ℕ → Option GlobalLoader → Bool
is_found id none = false
is_found id (some g) = g.attached && carries id g.loader_id

abbrev pub detach : Option GlobalLoader → Option GlobalLoader
detach none = none
detach (some g) = some (record g { attached = false })

abbrev pub fade : Option GlobalLoader → Option GlobalLoader
fade none = none
fade (some g) = some (record g { opaque = false })

abbrev pub is_some {ℓ} : {A : Type ℓ} → Option A → Bool
is_some none = false
is_some (some _) = true

-- the removal of the element with this `data-loader-id`
unfoldable pub remove_loader : ℕ → LoadingManager → LoadingManager
remove_loader id m =
    if is_found id m.global_loader
    then record m { global_loader = detach m.global_loader }
    else record m { element_loaders = remove id m.element_loaders }

unfoldable pub hide : ℕ → LoadingManager → LoadingManager
unfolding remove_loader
hide id m =
    if not (elem id m.active_loaders)
    then m
    else (let u = remove_loader id m in
        let v = record u { active_loaders = remove id u.active_loaders } in
        if is_some v.global_loader && null v.active_loaders
        then record v { global_loader = fade v.global_loader; fading = suc v.fading }
        else v)

abbrev pub conceal : Option GlobalLoader → Option GlobalLoader
conceal none = none
conceal (some g) = some (record g { displayed = false })

-- a timer of `hide` fires
unfoldable pub finish_fade : LoadingManager → LoadingManager
finish_fade m = elim m.fading [
  | zero ↦ m
  | suc n ↦ record m { global_loader = conceal m.global_loader; fading = n }
]

-- The set that `hideAll` walks loses each member as `hide` is called on it.
unfoldable pub hide_each : List ℕ → LoadingManager → LoadingManager
unfolding hide
hide_each [] m = m
hide_each (id ∷ ids) m = hide_each ids (hide id m)

abbrev pub hide_all : LoadingManager → LoadingManager
hide_all m = hide_each m.active_loaders m

-- The user sees the global loader.
abbrev pub is_visible : LoadingManager → Bool
is_visible m = elim m.global_loader [
  | none ↦ false
  | some g ↦ g.attached && g.displayed && g.opaque
]

pub data Event : Type 0 where
  shows : Target → ℕ → Text → Event
  hides : ℕ → Event
  fades : Event

unfoldable pub step : Text → LoadingManager → Event → LoadingManager
unfolding show hide finish_fade
step loading m (shows target id message) = show loading target id message m
step loading m (hides id) = hide id m
step loading m fades = finish_fade m

unfoldable pub run : Text → LoadingManager → List Event → LoadingManager
unfolding step
run loading m [] = m
run loading m (e ∷ es) = run loading (step loading m e) es
