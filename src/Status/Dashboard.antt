-- ===== src/Status/Dashboard.antt =====
-- static/js/neo-dashboard.js: the states of the servers on the dashboard and their counts.
use centos_info_collect.Base.{
  ◌++◌, ◌||◌, ℕ, ◌+◌, ◌≤◌, ◌≡◌, refl, ◌↔◌, ◌⊎◌, inl, inr, Bool, true, false, not, Option, none,
  some, List, [], ◌∷◌, Text, codes, null, get, insert, length, select, map, All, ◌==◌, ℕ_eq,
  list_eq, if◌then◌else◌, arith, list_beq_iff, Bool-cases,
}

-- What a request for the state of a server brings: no response or no JSON, a status that is not
-- `ok`, or the field `status` of the body.
pub data Reply : Type 0 where
  failed refused : Reply
  answered : Option Text → Reply

abbrev pub offline : Text
offline = codes "offline"

abbrev pub online : Text
online = codes "online"

-- the state that `updateServerStatus` returns
unfoldable pub status_of : Reply → Text
status_of failed = offline
status_of refused = offline
status_of (answered none) = offline
status_of (answered (some status)) = if null status then offline else status

-- the element of one server: its classes and what it says
pub record Indicator : Type 0 where
  pub classes : List Text
  pub label : Text
  pub color : Text

abbrev pub colored : List Text
colored =
    codes "btn-outline-secondary" ∷ codes "btn-outline-success" ∷ codes "btn-outline-danger" ∷ []

abbrev is_plain : Text → Bool
is_plain name = not (
    name == codes "btn-outline-secondary"
    || name == codes "btn-outline-success"
    || name == codes "btn-outline-danger")

unfoldable pub update_status_indicator : Text → Indicator → Indicator
update_status_indicator status element =
    let kept = select is_plain element.classes in
    if status == online
    then record {
      classes = kept ++ codes "btn-outline-success" ∷ [];
      label = codes "在线";
      color = codes "#16a34a";
    }
    else record {
      classes = kept ++ codes "btn-outline-danger" ∷ [];
      label = codes "离线";
      color = codes "#dc2626";
    }

pub record Metrics : Type 0 where
  pub online_count : ℕ
  pub offline_count : ℕ

pub record Dashboard : Type 0 where
  pub status_cache : List (Text × Text)
  pub indicators : List (Text × Indicator)
  pub metrics : Metrics

abbrev pub values : List (Text × Text) → List Text
values = map (λ entry. entry.1)

unfoldable pub count_status : Text → List Text → ℕ
count_status status states = length (select (λ s. s == status) states)

unfoldable pub update_metrics : Dashboard → Dashboard
unfolding count_status
update_metrics d = record d {
  metrics = record {
    online_count = count_status online (values d.status_cache);
    offline_count = count_status offline (values d.status_cache);
  };
}

abbrev pub indicate : Text → Text → List (Text × Indicator) → List (Text × Indicator)
indicate id status elements = elim (get id elements) [
  | none ↦ elements
  | some element ↦ insert id (update_status_indicator status element) elements
]

unfoldable pub update_server_status : Text → Reply → Dashboard → Dashboard
unfolding status_of update_status_indicator
update_server_status id reply d = record d {
  status_cache = insert id (status_of reply) d.status_cache;
  indicators = indicate id (status_of reply) d.indicators;
}

-- `updateAllServerStatus`: the replies for the listed servers in the order in which they come, and
-- then the counts.
unfoldable pub update_all : List (Text × Reply) → Dashboard → Dashboard
unfolding update_server_status update_metrics
update_all [] d = update_metrics d
update_all ((id, reply) ∷ replies) d = update_all replies (update_server_status id reply d)

exclusive : (s : Text) → s == online ≡ true → s == offline ≡ false
exclusive s h = elim (Bool-cases (s == offline)) [
  | inr no_match ↦ no_match
  | inl both ↦
      let p : s ≡ online = (list_beq_iff s online).0 h in
      let q : s ≡ offline = (list_beq_iff s offline).0 both in cc
]

abbrev pub IsKnown : Text → Type 0
IsKnown s = (s ≡ online) ⊎ (s ≡ offline)

counts_lem :
    (states : List Text)
    → (count_status online states + count_status offline states ≤ length states)
      × ((count_status online states + count_status offline states ≡ length states)
          ↔ All IsKnown states)
unfolding count_status
counts_lem [] = (omega arith, (λ _. tt, λ _. refl))
counts_lem (s ∷ states) =
    let ih = counts_lem states in
    ground (arith, ih, exclusive s, list_beq_iff s online, list_beq_iff s offline)

update_all-metrics :
    (replies : List (Text × Reply)) (d : Dashboard)
    → (update_all replies d).metrics ≡ (update_metrics (update_all replies d)).metrics
unfolding update_all update_metrics
update_all-metrics [] d = refl
update_all-metrics ((id, reply) ∷ replies) d =
    update_all-metrics replies (update_server_status id reply d)

-- After an update the two counts together are at most the number of servers in the cache, and equal
-- to it exactly if the state of every server is `online` or `offline`; a server in another state is
-- in neither count.
pub update_all-counts :
    (replies : List (Text × Reply)) (d : Dashboard)
    → let d' = update_all replies d in
      (d'.metrics.online_count + d'.metrics.offline_count ≤ length (values d'.status_cache))
      × ((d'.metrics.online_count + d'.metrics.offline_count ≡ length (values d'.status_cache))
          ↔ All IsKnown (values d'.status_cache))
unfolding update_metrics
update_all-counts replies d =
    rw update_all-metrics (counts_lem (values (update_all replies d).status_cache))
