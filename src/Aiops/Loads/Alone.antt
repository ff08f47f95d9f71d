-- ===== src/Aiops/Loads/Alone.antt =====
-- A panel that a button loads has one request at a time.
use centos_info_collect.Base.{
  ℕ, ◌≡◌, refl, ap, ◌∙◌, true, false, not, Option, none, some, List, [], ◌∷◌, ◌++◌, Text, pick,
  length, length-append, length-pick, if◌then◌else◌, arith, inl, inr, if-elim, if_true, if_false,
  Option-cases,
}
use centos_info_collect.Metric.Values.{Value}
use centos_info_collect.Aiops.Replies.{Reply, Result, failed, loaded, read_reply}
use centos_info_collect.Aiops.Loads.{
  Loader, Panel, Event, clicks, chooses, replies, new, load, settle, reply, step, run,
}

module _ {C : Type 0} where
  -- what the user can do while the panel loads
  abbrev pub waiting : List (Option C) → List (Event C)
  waiting [] = []
  waiting (none ∷ cs) = clicks ∷ waiting cs
  waiting (some c ∷ cs) = chooses c ∷ waiting cs

  abbrev pub last_choice : C → List (Option C) → C
  last_choice c [] = c
  last_choice c (none ∷ cs) = last_choice c cs
  last_choice c (some d ∷ cs) = last_choice d cs

module _ {C : Type 0} {A : Type 0} where
  -- As many requests are in flight as the flag says.
  abbrev pub IsAlone : Panel C A → Type 0
  IsAlone p = length p.in_flight ≡ (if p.loading then 1 else 0)

  load-IsAlone :
      (l : Loader C A) (p : Panel C A) → p.loading ≡ false → IsAlone p → IsAlone (load l p)
  unfolding load
  load-IsAlone l p i h =
      if-elim IsAlone (not (l.ready p.choice)) (λ y. h)
        (λ n. ground (arith, length-append p.in_flight (p.choice ∷ [])))

  settle-idle :
      (l : Loader C A) (r : Result) (p : Panel C A)
      → ((settle l r p).loading ≡ false) × ((settle l r p).in_flight ≡ p.in_flight)
  settle-idle l (failed m) p = (refl, refl)
  settle-idle l (loaded b) p = (refl, refl)

  reply-IsAlone :
      (show : Value → Text) (l : Loader C A) (n : ℕ) (r : Reply) (p : Panel C A)
      → IsAlone p
      → IsAlone (reply show l n r p)
  unfolding reply
  reply-IsAlone show l n r p h = elim (Option-cases (pick n p.in_flight)) [
    | inl e ↦ rw (e, reply) h
    | inr ((c, rest), e) ↦
        let (idle, same) =
          settle-idle l (read_reply show l.fallback r) (record p { in_flight = rest }) in
        rw (e, reply) (ground (arith, idle, same, length-pick n p.in_flight e, h))
  ]

  step-IsAlone :
      (show : Value → Text) (l : Loader C A) (p : Panel C A) (e : Event C)
      → IsAlone p
      → IsAlone (step show l p e)
  unfolding step
  step-IsAlone show l p clicks h = if-elim IsAlone p.loading (λ y. h) (λ n. load-IsAlone l p n h)
  step-IsAlone show l p (chooses c) h = h
  step-IsAlone show l p (replies n r) h = reply-IsAlone show l n r p h

  -- A panel that has one request in flight if it loads and none otherwise stays so after any clicks
  -- of its button, choices and replies: the button never starts a second request before the first
  -- has ended, and the panel never loads without a reply to come.
  pub run-IsAlone :
      (show : Value → Text) (l : Loader C A) (p : Panel C A) (es : List (Event C))
      → IsAlone p
      → IsAlone (run show l p es)
  unfolding run
  run-IsAlone show l p [] h = h
  run-IsAlone show l p (e ∷ es) h =
      run-IsAlone show l (step show l p e) es (step-IsAlone show l p e h)

  run-waiting :
      (show : Value → Text) (l : Loader C A) (p : Panel C A) (cs : List (Option C))
      (es : List (Event C))
      → p.loading ≡ true
      → run show l p (waiting cs ++ es)
        ≡ run show l (record p { choice = last_choice p.choice cs }) es
  unfolding run step
  run-waiting show l p [] es h = refl
  run-waiting show l p (none ∷ cs) es h =
      ap (λ q. run show l q (waiting cs ++ es)) (if_true p.loading _ _ h)
      ∙ run-waiting show l p cs es h
  run-waiting show l p (some c ∷ cs) es h = run-waiting show l (record p { choice = c }) cs es h

  -- what a panel shows when its request has ended
  abbrev pub shown : Loader C A → C → A → Result → Panel C A
  shown l c old r = settle l r (new c (l.reset old))

  settle-asking :
      (l : Loader C A) (r : Result) (c : C) (a : A)
      → settle l r (record (new c a) { loading = true }) ≡ settle l r (new c a)
  settle-asking l (failed m) c a = refl
  settle-asking l (loaded b) c a = refl

  -- the panel while its request is awaited
  abbrev asking : C → C → A → Panel C A
  asking c asked a = record (new c a) { loading = true; in_flight = asked ∷ [] }

  load-idle :
      (l : Loader C A) (p : Panel C A)
      → p.in_flight ≡ []
      → l.ready p.choice ≡ true
      → load l p ≡ asking p.choice p.choice (l.reset p.result)
  unfolding load
  load-idle l p f k = ground arith

  run-asking :
      (show : Value → Text) (l : Loader C A) (c asked : C) (a : A) (cs : List (Option C))
      (r : Reply)
      → run show l (asking c asked a) (waiting cs ++ replies 0 r ∷ [])
        ≡ settle l (read_reply show l.fallback r) (new (last_choice c cs) a)
  unfolding run step reply
  run-asking show l c asked a cs r =
      run-waiting show l (asking c asked a) cs (replies 0 r ∷ []) refl
      ∙ settle-asking l (read_reply show l.fallback r) (last_choice c cs) a

  -- A click on the button of a panel that is idle and ready, then any choices and further clicks of
  -- the user, then the reply: the panel is idle again and shows what the reply brings, the error or
  -- the result without an error, at the choice the user has made last.
  pub run-click_reply :
      (show : Value → Text) (l : Loader C A) (p : Panel C A) (cs : List (Option C)) (r : Reply)
      → p.loading ≡ false
      → p.in_flight ≡ []
      → l.ready p.choice ≡ true
      → run show l p (clicks ∷ waiting cs ++ replies 0 r ∷ [])
        ≡ shown l (last_choice p.choice cs) p.result (read_reply show l.fallback r)
  unfolding run step load reply
  run-click_reply show l p cs r i f k =
      ap (λ q. run show l q (waiting cs ++ replies 0 r ∷ []))
        (if_false p.loading _ _ i ∙ load-idle l p f k)
      ∙ run-asking show l p.choice p.choice (l.reset p.result) cs r
