-- ===== src/System/Finishing/Running.antt =====
-- `StageRunner.run` on the first attempts of the stages of an order, when the simulations pass.
use order_outbox_lab.Common.{
  ℕ, ◌≡◌, ◌≢◌, refl, sym, ap, ◌∙◌, ◌⊎◌, inl, inr, Bool, true, false, List, [], ◌∷◌, Option, none,
  some, Text, Memᴰ, subst, arith,
}
use order_outbox_lab.Pipeline.{StageName, StageStatus, StageName-discrete}
use order_outbox_lab.Database.{Store, EventKey, has_order}
use order_outbox_lab.Effects.{Env, World, Result, ok, err, catching, then_run, tick, handled}
use order_outbox_lab.Frames.{Attempt}
use order_outbox_lab.Stages.{Roll, stage_configs, simulated_failure}
use order_outbox_lab.Stages.Statements.{has_event}
use order_outbox_lab.Stages.Statements.Events.{Logged, has_event-cons}
use order_outbox_lab.Stages.Runner.{key_of, claim, outcome_of, if_claimed, attempt, run}
use order_outbox_lab.Stages.Runner.Claims.{claim-Recorded, complete-store}
use order_outbox_lab.System.Finishing.{attempt_of}
use order_outbox_lab.Status.Deciding.{pair_key}
use order_outbox_lab.Stages.Runner.Succeeding.{Calm, claim-succeeds, complete-logs}

-- The rolls of a simulation that passes.
pub record Rolls (stage : StageName) : Type 0 where
  pub delay : Roll
  pub failure : Roll
  pub passes : simulated_failure (stage_configs stage) failure ≡ none

-- The stage is not started, or has completed.
abbrev pub IsReady : Attempt → Store → Type 0
IsReady a s =
    (has_event (key_of a StageStatus.started) s.stage_events ≡ false)
    ⊎ (has_event (key_of a StageStatus.completed) s.stage_events ≡ true)

abbrev pub IsCompleted : Attempt → Store → Type 0
IsCompleted a s = has_event (key_of a StageStatus.completed) s.stage_events ≡ true

-- The orders stay, and at most the two rows of a passed attempt are added.
pub record Grows (a : Attempt) (s s' : Store) : Type 0 where
  pub orders : s'.orders ≡ s.orders
  pub keeps :
      (k : EventKey) → has_event k s.stage_events ≡ true → has_event k s'.stage_events ≡ true
  pub adds :
      (k : EventKey)
      → key_of a StageStatus.started ≢ k
      → key_of a StageStatus.completed ≢ k
      → has_event k s'.stage_events ≡ has_event k s.stage_events

Grows-trans : {a : Attempt} {s t u : Store} → Grows a s t → Grows a t u → Grows a s u
Grows-trans g h = record {
  orders = h.orders ∙ g.orders;
  keeps = λ k e. h.keeps k (g.keeps k e);
  adds = λ k x y. h.adds k x y ∙ g.adds k x y;
}

Grows-same : {a : Attempt} {s t : Store} → t ≡ s → Grows a s t
Grows-same e = record {
  orders = ap (λ s. s.orders) e;
  keeps = λ k h. ap (λ s. has_event k s.stage_events) e ∙ h;
  adds = λ k x y. ap (λ s. has_event k s.stage_events) e;
}

Grows-Logged :
    {a : Attempt} (status : StageStatus) {s t : Store}
    → (status ≡ StageStatus.started) ⊎ (status ≡ StageStatus.completed)
    → (t ≡ s) ⊎ Logged (key_of a status) s t
    → Grows a s t
Grows-Logged status which (inl e) = Grows-same e
Grows-Logged {a} status {s} {t} which (inr l) =
    let row =
      λ (k : EventKey). has_event-cons k (key_of a status) l.detail l.stamp s.stage_events in
    record {
      orders = ap (λ s. s.orders) l.after;
      keeps = λ k h. ground (arith, l.after, row k, h);
      adds = λ k x y. elim which [
        | inl e ↦ ground (arith, l.after, row k, x, y, e)
        | inr e ↦ ground (arith, l.after, row k, x, y, e)
      ];
    }

module _ (a : Attempt) (rolls : Rolls a.stage) (env : Env) where
  abbrev pub run_once : World → World
  run_once w = (run a rolls.delay rolls.failure env w).1

  outcome-Grows :
      (detail : Text) (failure : Option Text) (w : World)
      → failure ≡ none
      → Grows a w.store (outcome_of a detail failure env w).1.store
  outcome-Grows detail none w e =
      Grows-Logged StageStatus.completed (inr refl) (complete-store a detail env w).0
  outcome-Grows detail (some error) w e = cc

  work-Grows :
      (s : Store) (r : Result Bool × World)
      → Grows a s r.1.store
      → Grows a s (then_run env (if_claimed a rolls.delay rolls.failure) r).1.store
  work-Grows s (ok true, v) g = Grows-trans g (outcome-Grows _ _ (tick v) rolls.passes)
  work-Grows s (ok false, v) g = g
  work-Grows s (err x, v) g = g

  caught-Grows :
      (s : Store) (r : Result (Unit {0}) × World)
      → Grows a s r.1.store
      → Grows a s (handled tt r).1.store
  caught-Grows s (ok x, v) g = g
  caught-Grows s (err x, v) g = g

  -- A run that passes, under any environment.
  run-Grows : (w : World) → Grows a w.store (run_once w).store
  unfolding run attempt catching
  run-Grows w =
      caught-Grows w.store (then_run env (if_claimed a rolls.delay rolls.failure) (claim a env w)) (
        work-Grows w.store (claim a env w)
          (Grows-Logged StageStatus.started (inl refl) (claim-Recorded a env w).0))

  module _ (calm : Calm env) where
    outcome-completes :
        (detail : Text) (failure : Option Text) (w : World)
        → failure ≡ none
        → has_order a.order_id w.store.orders ≡ true
        → IsCompleted a (outcome_of a detail failure env w).1.store
    outcome-completes detail none w e known = complete-logs a env calm detail w known
    outcome-completes detail (some error) w e known = cc

    work-completes :
        (r : Result Bool × World)
        → r.0 ≡ ok true
        → has_order a.order_id r.1.store.orders ≡ true
        → IsCompleted a (then_run env (if_claimed a rolls.delay rolls.failure) r).1.store
    work-completes (ok true, v) e known = outcome-completes _ _ (tick v) rolls.passes known
    work-completes (ok false, v) e known = cc
    work-completes (err x, v) e known = cc

    caught-completes :
        (r : Result (Unit {0}) × World)
        → IsCompleted a r.1.store
        → IsCompleted a (handled tt r).1.store
    caught-completes (ok x, v) h = h
    caught-completes (err x, v) h = h

    run-completes :
        (w : World)
        → has_order a.order_id w.store.orders ≡ true
        → IsReady a w.store
        → IsCompleted a (run_once w).store
    unfolding run attempt catching
    run-completes w known (inr completed) =
        (run-Grows w).keeps (key_of a StageStatus.completed) completed
    run-completes w known (inl free) =
        let (claimed, orders, _) = claim-succeeds a env calm w known free in
        caught-completes (then_run env (if_claimed a rolls.delay rolls.failure) (claim a env w))
          (work-completes (claim a env w) claimed (ap (has_order a.order_id) orders ∙ known))

-- The first attempt of a stage of the order.
abbrev pub first_of : ℕ → StageName → Attempt
first_of j stage = attempt_of (pair_key j stage) 1

-- The handlers' calls for the first attempts of these stages, in this order.
unfoldable pub run_stages :
    ℕ → ((stage : StageName) → Rolls stage) → List StageName → Env → World → World
run_stages j rolls [] env w = w
run_stages j rolls (stage ∷ later) env w =
    run_stages j rolls later env (run_once (first_of j stage) (rolls stage) env w)

module _ (j : ℕ) (rolls : (stage : StageName) → Rolls stage) (env : Env) (calm : Calm env) where
  -- The call for one stage leaves the others ready.
  other-IsReady :
      (stage other : StageName) (w : World)
      → IsReady (first_of j other) w.store
      → has_order j w.store.orders ≡ true
      → IsReady (first_of j stage) w.store
      → IsReady (first_of j other) (run_once (first_of j stage) (rolls stage) env w).store
  other-IsReady stage other w (inr completed) known here =
      inr ((run-Grows (first_of j stage) (rolls stage) env w).keeps _ completed)
  other-IsReady stage other w (inl free) known here = elim (StageName-discrete stage other) [
    | yes e ↦ inr (
        subst
          (λ x. IsCompleted (first_of j x) (run_once (first_of j stage) (rolls stage) env w).store)
          e (run-completes (first_of j stage) (rolls stage) env calm w known here))
    | no n ↦ inl (
        (run-Grows (first_of j stage) (rolls stage) env w).adds
          (key_of (first_of j other) StageStatus.started) (λ e. n (ap (λ k. k.stage) e))
          (λ e. n (ap (λ k. k.stage) e))
        ∙ free)
  ]

  -- Calls in any order and any number complete the stages that they are for.
  pub run_stages-completes :
      (calls : List StageName) (w : World)
      → has_order j w.store.orders ≡ true
      → ((stage : StageName) → IsReady (first_of j stage) w.store)
      → ((run_stages j rolls calls env w).store.orders ≡ w.store.orders)
        × ((stage : StageName)
            → IsCompleted (first_of j stage) w.store ⊎ Memᴰ stage calls
            → IsCompleted (first_of j stage) (run_stages j rolls calls env w).store)
  unfolding run_stages
  run_stages-completes [] w known ready =
      (refl, λ stage h. elim h [ inl done ↦ done | inr m ↦ elim m [ ] ])
  run_stages-completes (s ∷ ss) w known ready =
      let u = run_once (first_of j s) (rolls s) env w in
      let g = run-Grows (first_of j s) (rolls s) env w in
      let (orders, completes) =
        run_stages-completes ss u (ap (has_order j) g.orders ∙ known)
          (λ stage. other-IsReady s stage w (ready stage) known (ready s)) in
      (
        orders ∙ g.orders,
        λ stage h. completes stage (elim h [
          | inl done ↦ inl (g.keeps (key_of (first_of j stage) StageStatus.completed) done)
          | inr m ↦ elim m [
            | Memᴰ.head e ↦ inl (
                subst (λ x. IsCompleted (first_of j x) u.store) (sym e)
                  (run-completes (first_of j s) (rolls s) env calm w known (ready s)))
            | Memᴰ.tail rest ↦ inr rest
          ]
        ]),
      )
