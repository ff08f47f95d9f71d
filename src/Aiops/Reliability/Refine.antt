-- ===== src/Aiops/Reliability/Refine.antt =====
-- The panel of reliability behaves as the one where only the latest call counts.
use centos_info_collect.Base.{
  ℕ, zero, suc, ◌≤◌, ◌≡◌, refl, ap, sym, ◌∙◌, Bool, true, false, none, some, List, [], ◌∷◌, ◌++◌,
  map, map-append, Text, null, pick, any, All-append, All-pick, tally, tally-snoc, tally-pick,
  IsUpTo, IsUpTo-suc, tally-IsUpTo, ◌==◌, ℕ_eq, nat_eq_iff, beq_self, if◌then◌else◌, if-elim,
  if_true, if_false, Option-cases, arith, inl, inr, Bool-cases, ltb,
}
use centos_info_collect.Metric.Values.{Value}
use centos_info_collect.Aiops.Replies.{Reply, Result, failed, loaded, read_reply}
use centos_info_collect.Aiops.Reliability.{
  Call, Reliability, Event, selects, clicks, replies, fallback, load_service_reliability, settle,
  reply, step, run,
}
use centos_info_collect.Aiops.Reliability.Latest.{
  Latest, is_loading, ask, show_result, answer, advance, advance_all,
}

-- the test of `requestId`
abbrev pub counts : ℕ → Call → Bool
counts v c = c.id == v

-- what the panel shows and which calls count
abbrev pub latest : Reliability → Latest
latest p = record {
  window = p.window;
  error = p.error;
  results = p.results;
  summary = p.summary;
  calls = map (counts p.request_id) p.in_flight;
}

-- No call is later than `requestId`, and one has that number if the panel loads and none otherwise.
pub record IsCurrent (p : Reliability) : Type 0 where
  pub up_to : IsUpTo (λ (c : Call). c.id) p.request_id p.in_flight
  pub awaited : tally (counts p.request_id) p.in_flight ≡ (if p.loading then 1 else 0)

any-map : (v : ℕ) (cs : List Call) → any (λ b. b) (map (counts v) cs) ≡ ltb 0 (tally (counts v) cs)
any-map v [] = refl
any-map v (c ∷ cs) = ground (arith, any-map v cs)

loading-latest : (p : Reliability) → IsCurrent p → is_loading (latest p) ≡ p.loading
loading-latest p v = any-map p.request_id p.in_flight ∙ elim (Bool-cases p.loading) [
  | inl y ↦ ground (arith, v.awaited)
  | inr n ↦ ground (arith, v.awaited)
]

-- A new number makes the earlier calls not count.
map-counts_new :
    (v : ℕ) (cs : List Call)
    → IsUpTo (λ (c : Call). c.id) v cs
    → map (counts (suc v)) cs ≡ map (λ b. false) (map (counts v) cs)
map-counts_new v [] h = refl
map-counts_new v (c ∷ cs) (a, h) = ground (arith, map-counts_new v cs h, nat_eq_iff c.id (suc v))

pick-map-none :
    {A B : Type 0} (f : A → B) (n : ℕ) (xs : List A) → pick n xs ≡ none → pick n (map f xs) ≡ none
pick-map-none f n [] h = refl
pick-map-none f zero (x ∷ xs) h = cc
pick-map-none f (suc n) (x ∷ xs) h = elim (Option-cases (pick n xs)) [
  | inl e ↦ rw (pick-map-none f n xs e) refl
  | inr ((y, ys), e) ↦ cc (rw e at h)
]

pick-map-some :
    {A B : Type 0} (f : A → B) (n : ℕ) (xs : List A) {a : A} {rest : List A}
    → pick n xs ≡ some (a, rest)
    → pick n (map f xs) ≡ some (f a, map f rest)
pick-map-some f n [] h = cc
pick-map-some f zero (x ∷ xs) {a} {rest} h =
    let same : x ≡ a = ground arith in
    let left : xs ≡ rest = ground arith in rw (sym same, sym left) refl
pick-map-some f (suc n) (x ∷ xs) {a} {rest} h = elim (Option-cases (pick n xs)) [
  | inl gone ↦ cc (rw gone at h)
  | inr ((y, ys), e) ↦
      let same : y ≡ a = ground (arith, rw e at h) in
      let left : x ∷ ys ≡ rest = ground (arith, rw e at h) in
      rw (pick-map-some f n xs e, sym same, sym left) refl
]

load-IsCurrent :
    (endpoint : Text) (p : Reliability)
    → IsCurrent p
    → IsCurrent (load_service_reliability endpoint p)
unfolding load_service_reliability
load-IsCurrent endpoint p v =
    let w = suc p.request_id in
    let c : Call = record { id = w; window = p.window } in
    if-elim IsCurrent (null endpoint) (λ y. v)
      (λ n. record {
        up_to =
            All-append (λ (d : Call). d.id ≤ w) p.in_flight (c ∷ [])
              (IsUpTo-suc (λ (d : Call). d.id) p.request_id p.in_flight v.up_to) (omega arith, tt);
        awaited = ground (
          arith,
          tally-snoc (counts w) p.in_flight c,
          tally-IsUpTo (λ (d : Call). d.id) p.request_id p.in_flight v.up_to,
          beq_self w,
        );
      })

load_refines :
    (endpoint : Text) (p : Reliability)
    → IsCurrent p
    → latest (load_service_reliability endpoint p) ≡ ask endpoint (latest p)
unfolding load_service_reliability
load_refines endpoint p v =
    let w = suc p.request_id in
    let c : Call = record { id = w; window = p.window } in
    let calls : map (counts w) (p.in_flight ++ c ∷ [])
        ≡ map (λ b. false) (map (counts p.request_id) p.in_flight) ++ true ∷ [] =
      ground (
        arith,
        map-append (counts w) p.in_flight (c ∷ []),
        map-counts_new p.request_id p.in_flight v.up_to,
        beq_self w,
      ) in
    ground (arith, calls)

-- what the end of a call leaves
abbrev ended : (Value → Text) → Call → List Call → Reply → Reliability → Reliability
ended show c rest r p =
    if c.id == p.request_id
    then settle (read_reply show fallback r) (record p { in_flight = rest })
    else record p { in_flight = rest }

settle_lem :
    (r : Result) (p : Reliability)
    → ((settle r p).loading ≡ false)
      × (((settle r p).request_id ≡ p.request_id) × ((settle r p).in_flight ≡ p.in_flight))
settle_lem (failed m) p = (refl, (refl, refl))
settle_lem (loaded b) p = (refl, (refl, refl))

settle_refines : (r : Result) (p : Reliability) → latest (settle r p) ≡ show_result r (latest p)
settle_refines (failed m) p = refl
settle_refines (loaded b) p = refl

ended-IsCurrent :
    (show : Value → Text) (n : ℕ) (c : Call) (rest : List Call) (r : Reply) (p : Reliability)
    → pick n p.in_flight ≡ some (c, rest)
    → IsCurrent p
    → IsCurrent (ended show c rest r p)
ended-IsCurrent show n c rest r p e v =
    let (b, u) = All-pick (λ (d : Call). d.id ≤ p.request_id) n p.in_flight e v.up_to in
    let q : Reliability = record p { in_flight = rest } in
    let (idle, (same, left)) = settle_lem (read_reply show fallback r) q in
    let number = tally-pick (counts p.request_id) n p.in_flight e in
    if-elim IsCurrent (c.id == p.request_id)
      (λ y. record {
        up_to = rw (same, left) u;
        awaited = rw (same, left, idle) (ground (arith, number, v.awaited));
      })
      (λ o. record { up_to = u; awaited = ground (arith, number, v.awaited) })

reply-IsCurrent :
    (show : Value → Text) (n : ℕ) (r : Reply) (p : Reliability)
    → IsCurrent p
    → IsCurrent (reply show n r p)
unfolding reply
reply-IsCurrent show n r p v = elim (Option-cases (pick n p.in_flight)) [
  | inl e ↦ rw (e, reply) v
  | inr ((c, rest), e) ↦ rw (e, reply) (ended-IsCurrent show n c rest r p e v)
]

reply_refines :
    (show : Value → Text) (n : ℕ) (r : Reply) (p : Reliability)
    → latest (reply show n r p) ≡ answer show n r (latest p)
unfolding reply
reply_refines show n r p = elim (Option-cases (pick n p.in_flight)) [
  | inl e ↦ rw (e, reply, pick-map-none (counts p.request_id) n p.in_flight e, answer) refl
  | inr ((c, rest), e) ↦
      rw (e, reply, pick-map-some (counts p.request_id) n p.in_flight e, answer)
        (elim (Bool-cases (c.id == p.request_id)) [
          | inl y ↦
              rw y (settle_refines (read_reply show fallback r) (record p { in_flight = rest }))
          | inr o ↦ rw o refl
        ])
]

step-IsCurrent :
    (show : Value → Text) (endpoint : Text) (p : Reliability) (e : Event)
    → IsCurrent p
    → IsCurrent (step show endpoint p e)
unfolding step
step-IsCurrent show endpoint p (selects w) v =
    load-IsCurrent endpoint (record p { window = w })
      (record { up_to = v.up_to; awaited = v.awaited })
step-IsCurrent show endpoint p clicks v =
    if-elim IsCurrent p.loading (λ y. v) (λ n. load-IsCurrent endpoint p v)
step-IsCurrent show endpoint p (replies n r) v = reply-IsCurrent show n r p v

click_refines :
    (endpoint : Text) (p : Reliability)
    → IsCurrent p
    → latest (if p.loading then p else load_service_reliability endpoint p)
      ≡ (if is_loading (latest p) then latest p else ask endpoint (latest p))
click_refines endpoint p v = rw (loading-latest p v) (elim (Bool-cases p.loading) [
  | inl y ↦ ap latest (if_true p.loading _ _ y) ∙ sym (if_true p.loading _ _ y)
  | inr n ↦
      ap latest (if_false p.loading _ _ n)
      ∙ load_refines endpoint p v
      ∙ sym (if_false p.loading _ _ n)
])

step_refines :
    (show : Value → Text) (endpoint : Text) (p : Reliability) (e : Event)
    → IsCurrent p
    → latest (step show endpoint p e) ≡ advance show endpoint (latest p) e
unfolding step
step_refines show endpoint p (selects w) v =
    load_refines endpoint (record p { window = w })
      (record { up_to = v.up_to; awaited = v.awaited })
step_refines show endpoint p clicks v = click_refines endpoint p v
step_refines show endpoint p (replies n r) v = reply_refines show n r p

-- For every history of choices of the window, clicks of the button and replies in any order, the
-- panel of reliability shows what the machine without identifiers shows, in which a new call makes
-- the earlier ones not count and only the reply to the one that counts is shown; and the panel
-- loads exactly while one counts. The panel is to hold no later number than `requestId` among its
-- calls, with one call of that number if it loads and none otherwise.
pub run_refines :
    (show : Value → Text) (endpoint : Text) (p : Reliability) (es : List Event)
    → IsCurrent p
    → (latest (run show endpoint p es) ≡ advance_all show endpoint (latest p) es)
      × (is_loading (latest (run show endpoint p es)) ≡ (run show endpoint p es).loading)
unfolding run advance_all
run_refines show endpoint p [] v = (refl, loading-latest p v)
run_refines show endpoint p (e ∷ es) v =
    let (shown, l) =
      run_refines show endpoint (step show endpoint p e) es (step-IsCurrent show endpoint p e v) in
    (shown ∙ ap (λ s. advance_all show endpoint s es) (step_refines show endpoint p e v), l)
