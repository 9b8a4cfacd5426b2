-- ===== src/Stages/Runner/Succeeding.antt =====
-- The methods of the runner when no call fails: which of them resolve, and the rows that they leave.
use order_outbox_lab.Common.{
  ℕ, suc, not, Bool, ◌≡◌, refl, ap, ◌∙◌, inl, inr, true, false, Option, some, arith, Text,
}
use order_outbox_lab.Pipeline.{StageStatus}
use order_outbox_lab.Database.{Store, Stamp, EventKey, has_order}
use order_outbox_lab.Frames.{Attempt}
use order_outbox_lab.Effects.{
  Outcome, Env, World, Result, ok, err, query, transaction, publish_frame, catching, then_run, M,
  pure, ◌>>◌, end_transaction,
}
use order_outbox_lab.Outbox.{has_row, insert_outbox, enqueue_outbox}
use order_outbox_lab.Stages.{RetryDecision, next_action_after_failure}
use order_outbox_lab.Stages.Statements.{
  has_event, insert_event, upsert_retry, upsert_rows, retry_count, dead_letter,
}
use order_outbox_lab.Stages.Statements.Events.{has_event-cons, insert_event-eq-some}
use order_outbox_lab.Stages.Runner.{
  key_of, pair_of, after_failure, decide, count_failure, record_event, publish, claim, fail_body,
  fail, complete,
}
use order_outbox_lab.Stages.Runner.Outcomes.{
  FailureRecorded, fail-store, publish-quiet, publish_then-quiet,
}

-- Every call of the environment succeeds.
abbrev pub Calm : Env → Type 0
Calm env = (n : ℕ) → env.outcome n ≡ Outcome.done

insert_event-logs :
    (k : EventKey) (detail : Option Text) (t : Stamp) (s s' : Store) (b : Bool)
    → insert_event k detail t s ≡ some (b, s')
    → has_event k s'.stage_events ≡ true
insert_event-logs k detail t s s' b h = elim (insert_event-eq-some k detail t s s' b h) [
  | inl (_, same, taken) ↦ ap (λ x. has_event k x.stage_events) same ∙ taken
  | inr (_, l) ↦ ground (arith, l.after, has_event-cons k k l.detail l.stamp s.stage_events)
]

FailureRecorded-events :
    {a : Attempt} {error : Text} {d : RetryDecision} {s s' : Store}
    (r : FailureRecorded a error d s s')
    → s'.stage_events ≡ r.with_event.stage_events
unfolding upsert_retry dead_letter insert_outbox
FailureRecorded-events {d = RetryDecision.retry} r = ground (arith, r.counted, r.last)
FailureRecorded-events {d = RetryDecision.dead_letter} r = ground (arith, r.counted, r.last)

FailureRecorded-logs :
    {a : Attempt} {error : Text} {d : RetryDecision} {s s' : Store}
    → FailureRecorded a error d s s'
    → has_event (key_of a StageStatus.failed) s'.stage_events ≡ true
FailureRecorded-logs {a} {error} {d} {s} r =
    ap (has_event (key_of a StageStatus.failed)) (FailureRecorded-events r)
    ∙ insert_event-logs (key_of a StageStatus.failed) (some error) r.logged_at s r.with_event
        r.new_event r.event

module _ (a : Attempt) (env : Env) (calm : Calm env) where
  -- The event row goes in, or was there.
  pub record-logs :
      (status : StageStatus) (detail : Option Text) (w : World)
      → has_order a.order_id w.store.orders ≡ true
      → let r = record_event a status detail env w in
        (r.0 ≡ ok (not (has_event (key_of a status) w.store.stage_events)))
        × (has_event (key_of a status) r.1.store.stage_events ≡ true)
        × (r.1.store.orders ≡ w.store.orders)
        × (r.1.store.outbox ≡ w.store.outbox)
  unfolding record_event query insert_event
  record-logs status detail w known =
      let cons =
        has_event-cons (key_of a status) (key_of a status) detail (env.stamp w.calls)
          w.store.stage_events in
      ground (arith, calm w.calls, known, cons)

  -- A completion leaves its row.
  then_publish-logs :
      (status : StageStatus) (detail : Option Text) (k : EventKey) (r : Result Bool × World)
      → has_event k r.1.store.stage_events ≡ true
      → has_event k (then_run env (λ _. publish a status detail) r).1.store.stage_events ≡ true
  then_publish-logs status detail k (ok b, v) h =
      ground (arith, publish-quiet a status detail env v)
  then_publish-logs status detail k (err e, v) h = h

  pub complete-logs :
      (detail : Text) (w : World)
      → has_order a.order_id w.store.orders ≡ true
      → has_event (key_of a StageStatus.completed) (complete a detail env w).1.store.stage_events
        ≡ true
  unfolding complete
  complete-logs detail w known =
      then_publish-logs StageStatus.completed (some detail) (key_of a StageStatus.completed)
        (record_event a StageStatus.completed (some detail) env w)
        (record-logs StageStatus.completed (some detail) w known).1

  -- The claim of an attempt that was not claimed before.
  pub claim-succeeds :
      (w : World)
      → has_order a.order_id w.store.orders ≡ true
      → has_event (key_of a StageStatus.started) w.store.stage_events ≡ false
      → let r = claim a env w in
        (r.0 ≡ ok true) × (r.1.store.orders ≡ w.store.orders) × (r.1.store.outbox ≡ w.store.outbox)
  unfolding claim record_event query insert_event publish publish_frame catching
  claim-succeeds w known free = ground (arith, calm w.calls, calm (suc w.calls), known, free)

  then_run-ok :
      {A B : Type 0} (f : A → M B) (r : Result A × World) (x : A) (y : B)
      → r.0 ≡ ok x
      → (f x env r.1).0 ≡ ok y
      → (then_run env f r).0 ≡ ok y
  then_run-ok f (ok z, v) x y e h = let same : z ≡ x = cc e in rw same h
  then_run-ok f (err z, v) x y e h = cc

  committed-ok :
      {A : Type 0} (old : Store) (r : Result A × World) (x : A)
      → r.0 ≡ ok x
      → (end_transaction env old r).0 ≡ ok x
  committed-ok old (ok z, v) x e = rw (calm v.calls) e
  committed-ok old (err z, v) x e = cc

  upsert-succeeds :
      (error : Text) (w : World)
      → has_order a.order_id w.store.orders ≡ true
      → let r = query (upsert_retry (pair_of a) error) env w in
        (r.0 ≡ ok (retry_count (pair_of a) (upsert_rows (pair_of a) error w.store.stage_retries)))
        × (r.1.store.orders ≡ w.store.orders)
        × (r.1.store.outbox ≡ w.store.outbox)
  unfolding query upsert_retry
  upsert-succeeds error w known = ground (arith, calm w.calls, known)

  after_failure-succeeds :
      (d : RetryDecision) (w : World)
      → has_order a.order_id w.store.orders ≡ true
      → has_row (env.stamp w.calls).id w.store.outbox ≡ false
      → (after_failure a d env w).0 ≡ ok tt
  unfolding query dead_letter enqueue_outbox insert_outbox
  after_failure-succeeds RetryDecision.dead_letter w known fresh = ground (arith, calm w.calls)
  after_failure-succeeds RetryDecision.retry w known fresh =
      ground (arith, calm w.calls, known, fresh)

  -- The failure transaction resolves, so its rows are in.
  module _ (error : Text) (w : World) (known : has_order a.order_id w.store.orders ≡ true)
      (fresh : (n : ℕ) → has_row (env.stamp n).id w.store.outbox ≡ false) where
    abbrev pub failed_logged : Result Bool × World
    failed_logged = record_event a StageStatus.failed (some error) env w

    open (record-logs StageStatus.failed (some error) w known) use {
      0 as logged_ok, 2 as logged_orders, 3 as logged_outbox,
    }

    abbrev pub failed_counted : Result ℕ × World
    failed_counted = query (upsert_retry (pair_of a) error) env failed_logged.1

    abbrev pub new_count : ℕ
    new_count =
        retry_count (pair_of a) (upsert_rows (pair_of a) error failed_logged.1.store.stage_retries)

    fail_body-ok : (fail_body a error env w).0 ≡ ok (next_action_after_failure new_count)
    unfolding fail_body
    fail_body-ok =
        let (counted_ok, orders, outbox) =
          upsert-succeeds error failed_logged.1 (ap (has_order a.order_id) logged_orders ∙ known) in
        let d = next_action_after_failure new_count in
        let last =
          after_failure-succeeds d failed_counted.1
            (ap (has_order a.order_id) (orders ∙ logged_orders) ∙ known)
            (ap (has_row (env.stamp failed_counted.1.calls).id) (outbox ∙ logged_outbox)
              ∙ fresh failed_counted.1.calls) in
        then_run-ok (λ _. count_failure a error) failed_logged _ d logged_ok
          (then_run-ok (decide a) failed_counted new_count d counted_ok
            (then_run-ok (λ _. pure d) (after_failure a d env failed_counted.1) tt d last refl))

    pub fail-ok : (fail a error env w).0 ≡ ok (next_action_after_failure new_count)
    unfolding fail transaction
    fail-ok =
        let d = next_action_after_failure new_count in
        let committed = committed-ok w.store (fail_body a error env w) d fail_body-ok in
        let u = (transaction (fail_body a error) env w).1 in
        then_run-ok (λ x. publish a StageStatus.failed (some error) >> pure x) _ d d committed
          (publish_then-quiet d a StageStatus.failed (some error) env u).0

    -- Its three writes keep the event that went in first.
    pub fail-logs :
        has_event (key_of a StageStatus.failed) (fail a error env w).1.store.stage_events ≡ true
    fail-logs =
        FailureRecorded-logs
          ((fail-store a error env w).1 (next_action_after_failure new_count) fail-ok)
