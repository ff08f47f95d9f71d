-- ===== src/Aiops/Investigations/Calls.antt =====
-- The calls for investigations: how many of each kind are in flight, and how a call ends.
use centos_info_collect.Base.{
  ℕ, suc, ◌≤◌, ◌≡◌, refl, Bool, true, false, not, ◌&&◌, List, [], ◌∷◌, All-append, tally,
  tally-snoc, IsUpTo, IsUpTo-suc, ◌==◌, ℕ_eq, nat_eq_iff, if◌then◌else◌, if-elim, arith,
}
use centos_info_collect.Aiops.Replies.{Reply, Result, failed, loaded, read_reply}
use centos_info_collect.Aiops.Investigations.{
  Task, listing, opening, reading, creating, giving, Feedback, Investigations, Context, begin,
  settle_listing, end_listing, settle_reading, end_reading,
}

abbrev pub version : Task → ℕ
version (listing v) = v
version (opening v) = v
version (reading v) = v
version creating = 0
version giving = 0

-- a call of `loadInvestigations` or `loadInvestigationDetail` with this number
abbrev pub has_version : ℕ → Task → Bool
has_version v (listing w) = w == v
has_version v (opening w) = w == v
has_version v (reading w) = w == v
has_version v creating = false
has_version v giving = false

abbrev pub creates_one : Task → Bool
creates_one creating = true
creates_one (listing v) = false
creates_one (opening v) = false
creates_one (reading v) = false
creates_one giving = false

abbrev pub gives_one : Task → Bool
gives_one giving = true
gives_one (listing v) = false
gives_one (opening v) = false
gives_one (reading v) = false
gives_one creating = false

abbrev pub one_if : Bool → ℕ
one_if b = if b then 1 else 0

-- No call has a later number than `requestId`; one call has that number if the list or a detail
-- loads, one creates an investigation if one is saved, one gives feedback if it is saved, and
-- otherwise none does.
pub record IsAwaited (p : Investigations) : Type 0 where
  pub up_to : IsUpTo version p.request_id p.in_flight
  pub current : tally (has_version p.request_id) p.in_flight ≡ one_if p.loading
  pub saved : tally creates_one p.in_flight ≡ one_if p.saving
  pub given : tally gives_one p.in_flight ≡ one_if p.feedback.saving

has_version_lem : (v : ℕ) (t : Task) → has_version v t ≡ true → version t ≡ v
has_version_lem v (listing w) h = (nat_eq_iff w v).0 h
has_version_lem v (opening w) h = (nat_eq_iff w v).0 h
has_version_lem v (reading w) h = (nat_eq_iff w v).0 h
has_version_lem v creating h = cc
has_version_lem v giving h = cc

pub tally-has_version :
    (v : ℕ) (ts : List Task) → IsUpTo version v ts → tally (has_version (suc v)) ts ≡ 0
tally-has_version v [] h = refl
tally-has_version v (t ∷ ts) (a, h) =
    ground (arith, tally-has_version v ts h, has_version_lem (suc v) t)

pub begin-IsAwaited :
    (task : ℕ → Task) (p : Investigations)
    → let t = task (suc p.request_id) in
      (version t ≡ suc p.request_id)
        × ((has_version (suc p.request_id) t ≡ true)
            × ((creates_one t ≡ false) × (gives_one t ≡ false)))
      → IsAwaited p
      → IsAwaited (begin task p)
begin-IsAwaited task p (n, (h, (k, l))) a =
    let v = suc p.request_id in
    record {
      up_to =
          All-append (λ t. version t ≤ v) p.in_flight (task v ∷ [])
            (IsUpTo-suc version p.request_id p.in_flight a.up_to) (omega (arith, n), tt);
      current = ground (
        arith,
        tally-snoc (has_version v) p.in_flight (task v),
        tally-has_version p.request_id p.in_flight a.up_to,
        h,
      );
      saved = ground (arith, tally-snoc creates_one p.in_flight (task v), k, a.saved);
      given = ground (arith, tally-snoc gives_one p.in_flight (task v), l, a.given);
    }

-- The state with this call in flight as well.
abbrev pub Before : Task → Investigations → Type 0
Before t p = IsAwaited (record p { in_flight = t ∷ p.in_flight })

-- The two states have the same calls, numbers and saving.
abbrev pub Alike : Investigations → Investigations → Type 0
Alike q p =
    ((q.request_id ≡ p.request_id) × (q.in_flight ≡ p.in_flight))
    × ((q.saving ≡ p.saving) × (q.feedback.saving ≡ p.feedback.saving))

abbrev pub loads : Task → Bool
loads t = not (creates_one t) && not (gives_one t)

-- The end of the call that is current leaves nothing that loads.
pub end_current :
    (t : Task) (p q : Investigations)
    → loads t ≡ true
    → has_version p.request_id t ≡ true
    → Alike q p
    → q.loading ≡ false
    → Before t p
    → IsAwaited q
end_current t p q l h ((id, calls), (s, g)) i b = record {
  up_to = rw (id, calls) b.up_to.1;
  current = rw (id, calls, i) (ground (arith, b.current));
  saved = rw (calls, s) (ground (arith, b.saved));
  given = rw (calls, g) (ground (arith, b.given));
}

-- The end of a loader's call that is not current leaves what loads loading.
pub end_stale :
    (t : Task) (p q : Investigations)
    → loads t ≡ true
    → has_version p.request_id t ≡ false
    → Alike q p
    → q.loading ≡ p.loading
    → Before t p
    → IsAwaited q
end_stale t p q l h ((id, calls), (s, g)) i b = record {
  up_to = rw (id, calls) b.up_to.1;
  current = rw (id, calls, i) (ground (arith, b.current));
  saved = rw (calls, s) (ground (arith, b.saved));
  given = rw (calls, g) (ground (arith, b.given));
}

settle_listing-Alike :
    (r : Result) (p : Investigations)
    → Alike (settle_listing r p) p × ((settle_listing r p).loading ≡ false)
settle_listing-Alike (failed m) p = (((refl, refl), (refl, refl)), refl)
settle_listing-Alike (loaded b) p = (((refl, refl), (refl, refl)), refl)

pub end_listing-IsAwaited :
    (c : Context) (v : ℕ) (r : Reply) (p : Investigations)
    → Before (listing v) p
    → IsAwaited (end_listing c v r p)
end_listing-IsAwaited c v r p b =
    let x : Result = read_reply c.show _ r in
    let (a, i) = settle_listing-Alike x p in
    if-elim IsAwaited (v == p.request_id)
      (λ y. end_current (listing v) p (settle_listing x p) refl y a i b)
      (λ n. end_stale (listing v) p p refl n ((refl, refl), (refl, refl)) refl b)

settle_reading-saving : (r : Result) (f : Feedback) → (settle_reading r f).saving ≡ f.saving
settle_reading-saving (failed m) f = refl
settle_reading-saving (loaded b) f = refl

pub end_reading-IsAwaited :
    (c : Context) (v : ℕ) (r : Reply) (p : Investigations)
    → Before (reading v) p
    → IsAwaited (end_reading c v r p)
end_reading-IsAwaited c v r p b =
    let x : Result = read_reply c.show _ r in
    let s = settle_reading-saving x p.feedback in
    let q : Investigations = record p { feedback = settle_reading x p.feedback } in
    if-elim IsAwaited (v == p.request_id)
      (λ y.
        end_current (reading v) p (record q { loading = false }) refl y ((refl, refl), (refl, s))
          refl b)
      (λ n. end_stale (reading v) p q refl n ((refl, refl), (refl, s)) refl b)
