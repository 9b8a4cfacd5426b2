-- ===== src/Stages/Runner/Progress.antt =====
-- `StageRunner.run` when no call fails.
use order_outbox_lab.Common.{
  ℕ, Bool, ◌≡◌, ap, ◌∙◌, ◌⊎◌, inl, inr, true, false, Option, none, some, arith, Text,
}
use order_outbox_lab.Pipeline.{StageStatus}
use order_outbox_lab.Database.{Store, has_order}
use order_outbox_lab.Frames.{Attempt}
use order_outbox_lab.Effects.{Env, World, Result, ok, err, catching, then_run, tick, handled}
use order_outbox_lab.Outbox.{has_row}
use order_outbox_lab.Stages.{Roll}
use order_outbox_lab.Stages.Statements.{has_event}
use order_outbox_lab.Stages.Runner.{key_of, claim, outcome_of, if_claimed, attempt, run}
use order_outbox_lab.Stages.Runner.Succeeding.{
  Calm, complete-logs, claim-succeeds, fail-ok, fail-logs,
}

module _ (a : Attempt) (env : Env) (calm : Calm env) where
  -- The two ends of an attempt.
  abbrev pub Ended : Store → Type 0
  Ended s =
      (has_event (key_of a StageStatus.completed) s.stage_events ≡ true)
      ⊎ (has_event (key_of a StageStatus.failed) s.stage_events ≡ true)

  outcome_of-Ended :
      (detail : Text) (failure : Option Text) (w : World)
      → has_order a.order_id w.store.orders ≡ true
      → ((n : ℕ) → has_row (env.stamp n).id w.store.outbox ≡ false)
      → Ended (outcome_of a detail failure env w).1.store
  outcome_of-Ended detail none w known fresh = inl (complete-logs a env calm detail w known)
  outcome_of-Ended detail (some error) w known fresh = inr (
      ground
        (arith, fail-ok a env calm error w known fresh, fail-logs a env calm error w known fresh))

  handled-Ended :
      (delay_roll failure_roll : Roll) (r : Result Bool × World)
      → r.0 ≡ ok true
      → has_order a.order_id r.1.store.orders ≡ true
      → ((n : ℕ) → has_row (env.stamp n).id r.1.store.outbox ≡ false)
      → Ended (then_run env (if_claimed a delay_roll failure_roll) r).1.store
  handled-Ended delay_roll failure_roll (ok true, v) e known fresh =
      outcome_of-Ended _ _ (tick v) known fresh
  handled-Ended delay_roll failure_roll (ok false, v) e known fresh = cc
  handled-Ended delay_roll failure_roll (err x, v) e known fresh = cc

  caught-Ended : (r : Result (Unit {0}) × World) → Ended r.1.store → Ended (handled tt r).1.store
  caught-Ended (ok x, v) h = h
  caught-Ended (err x, v) h = h

  -- If no call fails and the generated outbox ids are new, `run` ends an attempt that was not claimed
  -- before, of an order that exists, with a `completed` or a `failed` row, whatever the rolls.
  pub run-Ended :
      (delay_roll failure_roll : Roll) (w : World)
      → has_order a.order_id w.store.orders ≡ true
      → ((n : ℕ) → has_row (env.stamp n).id w.store.outbox ≡ false)
      → has_event (key_of a StageStatus.started) w.store.stage_events ≡ false
      → Ended (run a delay_roll failure_roll env w).1.store
  unfolding run attempt catching
  run-Ended delay_roll failure_roll w known fresh free =
      let (claimed, orders, outbox) = claim-succeeds a env calm w known free in
      let r = claim a env w in
      caught-Ended (then_run env (if_claimed a delay_roll failure_roll) r) (
        handled-Ended delay_roll failure_roll r claimed (ap (has_order a.order_id) orders ∙ known)
          (λ n. ap (has_row (env.stamp n).id) outbox ∙ fresh n))
