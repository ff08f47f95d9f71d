-- ===== src/Connection/Batches.antt =====
-- `testMultipleConnections`: the servers in batches, with a delay between two batches.
use centos_info_collect.Base.{
  ℕ, zero, suc, ◌+◌, ◌-◌, ◌≤◌, ◌<◌, ◌≡◌, refl, ap, List, [], ◌∷◌, ◌++◌, length, take, drop,
  length-take, length-drop, length-append, take-append-drop, All, arith, ltb, nat_eq, if◌then◌else◌,
  Bool-cases, List-cases, subst, inl, inr,
}
use native.Mathlib.Nat.{suc-add}
use centos_info_collect.Connection.{ServerData, Outcome}

-- `options.maxConcurrent || 3`; 0 stands for an option that is not given, too
abbrev pub concurrency : ℕ → ℕ
concurrency n = if nat_eq n 0 then 3 else n

pub record Report : Type 0 where
  pub batches : List (List ServerData)
  pub results : List Outcome
  pub delays : ℕ

abbrev pub slice : ℕ → ℕ → List ServerData → List ServerData
slice i n servers = take n (drop i servers)

-- `settle` is `Promise.all` over the tests of a batch.
module _ (settle : List ServerData → List Outcome) where
  -- the loop from the index `i`, on fuel
  unfoldable pub test_from : ℕ → ℕ → List ServerData → ℕ → Report
  test_from zero n servers i = record { batches = []; results = []; delays = 0 }
  test_from (suc f) n servers i =
      let rest = test_from f n servers (i + n) in
      if ltb i (length servers)
      then record {
        batches = slice i n servers ∷ rest.batches;
        results = settle (slice i n servers) ++ rest.results;
        delays = (if ltb (i + n) (length servers) then 1 else 0) + rest.delays;
      }
      else record { batches = []; results = []; delays = 0 }

  -- Every round advances the index, so as many rounds as there are servers are enough.
  unfoldable pub test_multiple_connections : ℕ → List ServerData → Report
  unfolding test_from
  test_multiple_connections n servers = test_from (length servers) (concurrency n) servers 0

abbrev pub concat : List (List ServerData) → List ServerData
concat [] = []
concat (b ∷ bs) = b ++ concat bs

drop-nil {ℓ} : {A : Type ℓ} (n : ℕ) → drop {A = A} n [] ≡ []
drop-nil zero = refl
drop-nil (suc n) = refl

drop-eq-nil {ℓ} : {A : Type ℓ} (i : ℕ) (xs : List A) → length xs ≤ i → drop i xs ≡ []
drop-eq-nil zero [] h = refl
drop-eq-nil zero (x ∷ xs) h = absurd (omega arith)
drop-eq-nil (suc i) [] h = refl
drop-eq-nil (suc i) (x ∷ xs) h = drop-eq-nil i xs (omega arith)

drop-drop {ℓ} : {A : Type ℓ} (n i : ℕ) (xs : List A) → drop n (drop i xs) ≡ drop (i + n) xs
drop-drop n zero xs = ap (λ k. drop k xs) (omega arith)
drop-drop n (suc i) [] = rw (drop-nil n, drop-nil (suc i + n)) refl
drop-drop n (suc i) (x ∷ xs) = rw (suc-add i n) (drop-drop n i xs)

-- What is promised of a report on the servers from an index on.
pub record Covers (n : ℕ) (servers : List ServerData) (r : Report) : Type 0 where
  pub complete : concat r.batches ≡ servers
  pub small : All (λ b. length b ≤ n) r.batches
  pub one_each : length r.results ≡ length servers
  pub pauses : r.delays ≡ length r.batches - 1

module _ (settle : List ServerData → List Outcome)
    (settles : (b : List ServerData) → length (settle b) ≡ length b) where
  idle :
      (f n : ℕ) (servers : List ServerData) (i : ℕ)
      → length servers ≤ i
      → test_from settle f n servers i ≡ record { batches = []; results = []; delays = 0 }
  unfolding test_from
  idle zero n servers i h = refl
  idle (suc f) n servers i h = ground arith

  nonempty :
      (n : ℕ) (rest : List ServerData) (r : Report)
      → Covers n rest r
      → 1 ≤ length rest
      → 1 ≤ length r.batches
  nonempty n rest r c h = elim (List-cases r.batches) [
    | inl e ↦
        let none_left : [] ≡ rest = subst (λ b. concat b ≡ rest) e c.complete in
        absurd (omega (arith, ap length none_left))
    | inr (b, bs, e) ↦ rw e (omega arith)
  ]

  round :
      (n : ℕ) (servers : List ServerData) (i : ℕ) (r : Report)
      → i < length servers
      → Covers n (drop (i + n) servers) r
      → (length servers ≤ i + n → r.batches ≡ [])
      → Covers n (drop i servers) (record {
        batches = slice i n servers ∷ r.batches;
        results = settle (slice i n servers) ++ r.results;
        delays = (if ltb (i + n) (length servers) then 1 else 0) + r.delays;
      })
  round n servers i r h c last = record {
    complete = rw (c.complete, ← drop-drop) (take-append-drop n (drop i servers));
    small = (omega (arith, length-take n (drop i servers)), c.small);
    one_each =
        rw (length-append, settles, c.one_each)
          (omega (
            arith,
            length-take n (drop i servers),
            length-drop i servers,
            length-drop (i + n) servers,
          ));
    pauses =
        ground (
          arith,
          c.pauses,
          nonempty n (drop (i + n) servers) r c,
          length-drop (i + n) servers,
          last,
        );
  }

  test_from-Covers :
      (f n : ℕ) (servers : List ServerData) (i : ℕ)
      → 1 ≤ n
      → length servers ≤ f + i
      → Covers n (drop i servers) (test_from settle f n servers i)
  unfolding test_from
  test_from-Covers zero n servers i pos enough =
      rw (drop-eq-nil i servers (omega arith))
        (record { complete = refl; small = tt; one_each = refl; pauses = refl })
  test_from-Covers (suc f) n servers i pos enough = elim (Bool-cases (ltb i (length servers))) [
    | inl more ↦ rw more (
        round n servers i (test_from settle f n servers (i + n)) (ground arith)
          (test_from-Covers f n servers (i + n) pos (omega arith))
          (λ h. ap (λ r. r.batches) (idle f n servers (i + n) h)))
    | inr done ↦
        rw (done, drop-eq-nil i servers (ground arith))
          (record { complete = refl; small = tt; one_each = refl; pauses = refl })
  ]

  -- All servers are tested in their order, in batches no longer than the concurrency, with one
  -- result for each server and a delay between every two batches.
  pub test_multiple_connections-Covers :
      (n : ℕ) (servers : List ServerData)
      → Covers (concurrency n) servers (test_multiple_connections settle n servers)
  unfolding test_multiple_connections
  test_multiple_connections-Covers n servers =
      test_from-Covers (length servers) (concurrency n) servers 0 (ground arith) (omega arith)
