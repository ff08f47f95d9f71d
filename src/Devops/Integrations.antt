-- ===== src/Devops/Integrations.antt =====
-- `collectIntegration` and `planIntegration` of static/js/devops-vue.js: a connector or a blueprint
-- is sent to the server, and then `loadIntegrationReadiness` loads the lists again.
use centos_info_collect.Base.{
  ℕ, ◌≡◌, Bool, true, false, not, ◌||◌, Option, none, some, List, [], ◌∷◌, ◌++◌, Text, codes, null,
  pick, tally, tally-snoc, tally-pick, if◌then◌else◌, if-elim, Option-cases, inl, inr, arith,
}
use centos_info_collect.Devops.Fetch.{Reply, Outcome, failure, success, api_fetch}

-- a connector or a blueprint
pub record Source : Type 0 where
  pub id : ℕ
  pub enabled : Bool
  pub read_only : Bool

-- A call that awaits the server; the last two await the lists.
pub data Task : Type 0 where
  collecting : Task
  planning : Task
  collected : Task
  planned : Task

-- `collect_id` and `plan_id` are `collecting` and `planning`. The status that a connector shows
-- between its collection and the reload is left out.
pub record Board (A : Type 0) : Type 0 where
  pub error : Text
  pub notice : Text
  pub collect_id : Option ℕ
  pub plan_id : Option ℕ
  pub readiness : Option A
  pub readiness_error : Text
  pub in_flight : List Task

abbrev pub is_some : Option ℕ → Bool
is_some none = false
is_some (some n) = true

abbrev pub or_text : Text → Text → Text
or_text s t = if null s then t else s

module _ {A : Type 0} where
  unfoldable pub collect_integration : Source → Board A → Board A
  collect_integration c p =
      if not c.enabled || not c.read_only || is_some p.collect_id then p else record p {
        collect_id = some c.id;
        error = [];
        in_flight = p.in_flight ++ collecting ∷ [];
      }

  unfoldable pub plan_integration : Source → Board A → Board A
  plan_integration b p =
      if not b.enabled || not b.read_only || is_some p.plan_id
      then p
      else record p { plan_id = some b.id; error = []; in_flight = p.in_flight ++ planning ∷ [] }

  abbrev pub settle_collecting : Outcome Unit → Board A → Board A
  settle_collecting (failure m) p = record p {
    error = or_text m (codes "连接器采集失败");
    collect_id = none;
  }
  settle_collecting (success u) p = record p {
    notice = codes "连接器采集请求已提交";
    readiness_error = [];
    in_flight = p.in_flight ++ collected ∷ [];
  }

  abbrev pub settle_planning : Outcome Unit → Board A → Board A
  settle_planning (failure m) p = record p { error = or_text m (codes "创建计划失败"); plan_id = none }
  settle_planning (success u) p = record p {
    notice = codes "基础设施计划已创建";
    readiness_error = [];
    in_flight = p.in_flight ++ planned ∷ [];
  }

  -- the end of `loadIntegrationReadiness`
  abbrev pub settle_readiness : Outcome A → Board A → Board A
  settle_readiness (failure m) p = record p { readiness_error = or_text m (codes "集成就绪度加载失败") }
  settle_readiness (success a) p = record p { readiness = some a }

-- What comes back: `sent` to a collection or a plan, and `lists` to a reload.
pub record Answer (A : Type 0) : Type 0 where
  pub sent : Reply Unit
  pub lists : Outcome A

pub data Event (A : Type 0) : Type 0 where
  collects : Source → Event A
  plans : Source → Event A
  replies : ℕ → Answer A → Event A

-- a call for a collection, or for the reload after it
abbrev pub collects_one : Task → Bool
collects_one collecting = true
collects_one collected = true
collects_one planning = false
collects_one planned = false

-- and for a plan
abbrev pub plans_one : Task → Bool
plans_one collecting = false
plans_one collected = false
plans_one planning = true
plans_one planned = true

module _ {A : Type 0} where
  abbrev pub end_task : Task → Answer A → Board A → Board A
  unfolding api_fetch
  end_task collecting a p = settle_collecting (api_fetch a.sent) p
  end_task planning a p = settle_planning (api_fetch a.sent) p
  end_task collected a p = record (settle_readiness a.lists p) { collect_id = none }
  end_task planned a p = record (settle_readiness a.lists p) { plan_id = none }

  unfoldable pub reply : ℕ → Answer A → Board A → Board A
  unfolding end_task
  reply n a p = elim (pick n p.in_flight) [
    | none ↦ p
    | some (t, rest) ↦ end_task t a (record p { in_flight = rest })
  ]

  unfoldable pub step : Board A → Event A → Board A
  unfolding collect_integration plan_integration reply
  step p (collects c) = collect_integration c p
  step p (plans b) = plan_integration b p
  step p (replies n a) = reply n a p

  unfoldable pub run : Board A → List (Event A) → Board A
  unfolding step
  run p [] = p
  run p (e ∷ es) = run (step p e) es

-- One call collects or reloads after a collection while one is marked, and none otherwise; and so
-- for a plan.
pub record IsGuarded {A : Type 0} (p : Board A) : Type 0 where
  pub one_collects : tally collects_one p.in_flight ≡ (if is_some p.collect_id then 1 else 0)
  pub one_plans : tally plans_one p.in_flight ≡ (if is_some p.plan_id then 1 else 0)

module _ {A : Type 0} where
  abbrev Before : Task → Board A → Type 0
  Before t p = IsGuarded (record p { in_flight = t ∷ p.in_flight })

  collecting-IsGuarded :
      (o : Outcome Unit) (p : Board A) → Before collecting p → IsGuarded (settle_collecting o p)
  collecting-IsGuarded (failure m) p b = record {
    one_collects = ground (arith, b.one_collects);
    one_plans = b.one_plans;
  }
  collecting-IsGuarded (success u) p b = record {
    one_collects = ground (arith, tally-snoc collects_one p.in_flight collected, b.one_collects);
    one_plans = ground (arith, tally-snoc plans_one p.in_flight collected, b.one_plans);
  }

  planning-IsGuarded :
      (o : Outcome Unit) (p : Board A) → Before planning p → IsGuarded (settle_planning o p)
  planning-IsGuarded (failure m) p b = record {
    one_collects = b.one_collects;
    one_plans = ground (arith, b.one_plans);
  }
  planning-IsGuarded (success u) p b = record {
    one_collects = ground (arith, tally-snoc collects_one p.in_flight planned, b.one_collects);
    one_plans = ground (arith, tally-snoc plans_one p.in_flight planned, b.one_plans);
  }

  collected-IsGuarded :
      (o : Outcome A) (p : Board A)
      → Before collected p
      → IsGuarded (record (settle_readiness o p) { collect_id = none })
  collected-IsGuarded (failure m) p b = record {
    one_collects = ground (arith, b.one_collects);
    one_plans = b.one_plans;
  }
  collected-IsGuarded (success a) p b = record {
    one_collects = ground (arith, b.one_collects);
    one_plans = b.one_plans;
  }

  planned-IsGuarded :
      (o : Outcome A) (p : Board A)
      → Before planned p
      → IsGuarded (record (settle_readiness o p) { plan_id = none })
  planned-IsGuarded (failure m) p b = record {
    one_collects = b.one_collects;
    one_plans = ground (arith, b.one_plans);
  }
  planned-IsGuarded (success a) p b = record {
    one_collects = b.one_collects;
    one_plans = ground (arith, b.one_plans);
  }

  end_task-IsGuarded :
      (t : Task) (a : Answer A) (p : Board A) → Before t p → IsGuarded (end_task t a p)
  unfolding end_task
  end_task-IsGuarded collecting a p b = collecting-IsGuarded (api_fetch a.sent) p b
  end_task-IsGuarded planning a p b = planning-IsGuarded (api_fetch a.sent) p b
  end_task-IsGuarded collected a p b = collected-IsGuarded a.lists p b
  end_task-IsGuarded planned a p b = planned-IsGuarded a.lists p b

  step-IsGuarded : (p : Board A) (e : Event A) → IsGuarded p → IsGuarded (step p e)
  unfolding step collect_integration plan_integration reply
  step-IsGuarded p (collects c) g =
      if-elim IsGuarded (not c.enabled || not c.read_only || is_some p.collect_id) (λ y. g)
        (λ n. record {
          one_collects =
              ground (arith, tally-snoc collects_one p.in_flight collecting, g.one_collects, n);
          one_plans = ground (arith, tally-snoc plans_one p.in_flight collecting, g.one_plans);
        })
  step-IsGuarded p (plans c) g =
      if-elim IsGuarded (not c.enabled || not c.read_only || is_some p.plan_id) (λ y. g)
        (λ n. record {
          one_collects =
              ground (arith, tally-snoc collects_one p.in_flight planning, g.one_collects);
          one_plans = ground (arith, tally-snoc plans_one p.in_flight planning, g.one_plans, n);
        })
  step-IsGuarded p (replies n a) g = elim (Option-cases (pick n p.in_flight)) [
    | inl e ↦ rw (e, reply) g
    | inr ((t, rest), e) ↦
        rw (e, reply)
          (end_task-IsGuarded t a (record p { in_flight = rest })
            (record {
              one_collects =
                  ground (arith, tally-pick collects_one n p.in_flight e, g.one_collects);
              one_plans = ground (arith, tally-pick plans_one n p.in_flight e, g.one_plans);
            }))
  ]

  -- A board that has one call for a collection in flight while one is marked and none otherwise,
  -- and so for a plan, stays so after any history: at most one collection and one plan run at a
  -- time, and neither mark is left behind.
  pub run-IsGuarded : (p : Board A) (es : List (Event A)) → IsGuarded p → IsGuarded (run p es)
  unfolding run
  run-IsGuarded p [] g = g
  run-IsGuarded p (e ∷ es) g = run-IsGuarded (step p e) es (step-IsGuarded p e g)
