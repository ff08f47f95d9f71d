-- ===== src/Metric/Dashboard.antt =====
-- The choice of nodes on the dashboard of static/js/ops-vue-pages.js, and the cells of Targets and
-- Rules that are expanded.
pub mod Loads
pub mod Readiness
pub mod Filters
pub mod FilterTests
use centos_info_collect.Base.{
  ℕ, Bool, true, false, not, ◌&&◌, ◌||◌, ◌≡◌, refl, List, [], ◌∷◌, ◌++◌, Text, null, take, select,
  elem, elem-select, elem-snoc, elem-remove, remove, distinct, distinct-snoc, distinct-remove, ◌==◌,
  ℕ_eq, list_eq, list_beq_iff, nat_eq_iff, if◌then◌else◌, arith, Bool-cases, inl, inr,
}

-- `Array.from(new Set(names))`, where `seen` are those so far
unfoldable pub unique_after : List Text → List Text → List Text
unique_after seen [] = seen
unique_after seen (n ∷ ns) =
    let next = if elem n seen then seen else seen ++ n ∷ [] in unique_after next ns

-- `dashboardNodeOptions`, from the names of the hosts
abbrev pub dashboard_node_options : List Text → List Text
dashboard_node_options names = unique_after [] (select (λ n. not (null n)) names)

-- `syncDashboardNodeSelection`
unfoldable pub sync_dashboard_node_selection : List Text → List Text → List Text
sync_dashboard_node_selection available nodes =
    let selected = select (λ n. elem n available) nodes in
    if null selected then take 1 available else selected

-- `toggleTargetCell` and `toggleRuleCell`, on the list of one cell, with the rows as numbers
unfoldable pub toggle_cell : ℕ → List ℕ → List ℕ
toggle_cell row expanded = if elem row expanded then remove row expanded else expanded ++ row ∷ []

unique_after-distinct :
    (seen names : List Text) → distinct seen ≡ true → distinct (unique_after seen names) ≡ true
unfolding unique_after
unique_after-distinct seen [] d = d
unique_after-distinct seen (n ∷ ns) d =
    let next : List Text = if elem n seen then seen else seen ++ n ∷ [] in
    unique_after-distinct next ns (ground (arith, distinct-snoc n seen))

unique_after-elem :
    (seen names : List Text) (m : Text)
    → elem m (unique_after seen names) ≡ (elem m seen || elem m names)
unfolding unique_after elem
unique_after-elem seen [] m = ground arith
unique_after-elem seen (n ∷ ns) m =
    let next : List Text = if elem n seen then seen else seen ++ n ∷ [] in
    ground (arith, unique_after-elem next ns m, elem-snoc m n seen, list_beq_iff n m)

-- The nodes on offer are the names that are not empty, each once.
pub dashboard_node_options_lem :
    (names : List Text) (m : Text)
    → (distinct (dashboard_node_options names) ≡ true)
      × (elem m (dashboard_node_options names) ≡ (elem m names && not (null m)))
unfolding distinct elem
dashboard_node_options_lem names m =
    let named : Text → Bool = λ n. not (null n) in
    (
      unique_after-distinct [] (select named names) refl,
      ground (arith, unique_after-elem [] (select named names) m, elem-select m named names),
    )

null-elem : (m : Text) (ns : List Text) → null ns ≡ true → elem m ns ≡ false
unfolding elem
null-elem m [] h = refl
null-elem m (n ∷ ns) h = cc

-- a node that is on offer stands in the list of all names on offer
null-select :
    (p : Text → Bool) (a : List Text) (ns : List Text)
    → ((n : Text) → p n ≡ true → null a ≡ false)
    → null (select p ns) ≡ false
    → null a ≡ false
null-select p a [] f h = cc
null-select p a (n ∷ ns) f h = elim (Bool-cases (p n)) [
  | inl y ↦ f n y
  | inr k ↦ null-select p a ns f (ground (arith, h, k))
]

first-elem : (m : Text) (a : List Text) → (elem m (take 1 a) && not (elem m a)) ≡ false
unfolding elem
first-elem m [] = refl
first-elem m (n ∷ a) = ground arith

null-first : (a : List Text) → null (take 1 a) ≡ null a
null-first [] = refl
null-first (n ∷ a) = refl

-- After the selection is brought in line with the nodes on offer, it is empty only if there are
-- none, every node of it is on offer, and a node that was selected and is still on offer has
-- stayed.
pub sync_dashboard_node_selection_lem :
    (available nodes : List Text) (m : Text)
    → (null (sync_dashboard_node_selection available nodes) ≡ null available)
      × (((elem m (sync_dashboard_node_selection available nodes) && not (elem m available))
            ≡ false)
          × ((elem m nodes
                && elem m available
                && not (elem m (sync_dashboard_node_selection available nodes)))
              ≡ false))
unfolding sync_dashboard_node_selection
sync_dashboard_node_selection_lem available nodes m =
    let offered : Text → Bool = λ n. elem n available in
    elim (Bool-cases (null (select offered nodes))) [
      | inl y ↦ rw y (
        null-first available,
        (
          first-elem m available,
          ground (arith, null-elem m (select offered nodes) y, elem-select m offered nodes),
        ),
      )
      | inr k ↦ rw k (
        ground (
          arith,
          k,
          null-select offered available nodes (λ n h. ground (arith, null-elem n available)),
        ),
        (ground (arith, elem-select m offered nodes), ground (arith, elem-select m offered nodes)),
      )
    ]

-- A click on a cell changes whether its row is expanded and leaves the other rows as they were,
-- when no row is listed twice; and then none is listed twice after it.
pub toggle_cell_lem :
    (row r : ℕ) (expanded : List ℕ)
    → distinct expanded ≡ true
    → (elem r (toggle_cell row expanded)
        ≡ (if r == row then not (elem r expanded) else elem r expanded))
      × (distinct (toggle_cell row expanded) ≡ true)
unfolding toggle_cell
toggle_cell_lem row r expanded d = (
  ground (
    arith,
    elem-remove r row expanded,
    elem-snoc r row expanded,
    nat_eq_iff r row,
    nat_eq_iff row r,
  ),
  ground (arith, distinct-remove row expanded, distinct-snoc row expanded),
)
