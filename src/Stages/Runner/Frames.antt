-- ===== src/Stages/Runner/Frames.antt =====
-- Which frames the runner publishes, and what the tables hold when it does.
use order_outbox_lab.Common.{◌≡◌, refl, ◌⊎◌, inl, inr, ◌∷◌, Option, some, Text, arith, ℕ}
use order_outbox_lab.Pipeline.{StageStatus}
use order_outbox_lab.Frames.{Attempt}
use order_outbox_lab.Effects.{
  Env, World, Result, ok, err, ◌>>◌, pure, then_run, publish_frame, catching, query, transaction,
}
use order_outbox_lab.Effects.Quiet.{Quiet, query-Quiet, >>=-Quiet, transaction-Quiet}
use order_outbox_lab.Outbox.{insert_outbox, enqueue_outbox}
use order_outbox_lab.Stages.{RetryDecision, next_action_after_failure}
use order_outbox_lab.Stages.Statements.{insert_event, upsert_retry, dead_letter}
use order_outbox_lab.Stages.Runner.{
  key_of, pair_of, record_event, publish, frame_of, retry_entry, after_failure, decide,
  count_failure, fail_body, fail,
}
use order_outbox_lab.Stages.Runner.Outcomes.{FailureRecorded, fail-store, publish-quiet}

-- Publishing sends the frame once or not at all.
publish-frames :
    (a : Attempt) (status : StageStatus) (detail : Option Text) (env : Env) (w : World)
    → ((publish a status detail env w).1.published ≡ w.published)
      ⊎ ((publish a status detail env w).1.published
          ≡ frame_of a status detail (env.clock w.calls) ∷ w.published)
unfolding publish publish_frame catching
publish-frames a status detail env w = ground arith

after_failure-Quiet : (a : Attempt) (d : RetryDecision) → Quiet (after_failure a d)
unfolding enqueue_outbox
after_failure-Quiet a RetryDecision.dead_letter env w = query-Quiet (dead_letter (pair_of a)) env w
after_failure-Quiet a RetryDecision.retry env w =
    query-Quiet (insert_outbox (retry_entry a (env.clock w.calls))) env w

fail_body-Quiet : (a : Attempt) (error : Text) → Quiet (fail_body a error)
unfolding fail_body record_event
fail_body-Quiet a error =
    >>=-Quiet (record_event a StageStatus.failed (some error)) (λ _. count_failure a error)
      (query-Quiet (insert_event (key_of a StageStatus.failed) (some error)))
      λ _.
        >>=-Quiet (query (upsert_retry (pair_of a) error)) (decide a)
          (query-Quiet (upsert_retry (pair_of a) error))
          λ n.
            >>=-Quiet (after_failure a (next_action_after_failure n))
              (λ _. pure (next_action_after_failure n)) (after_failure-Quiet a _) (λ _ env w. refl)

-- What follows the transaction: no frame, or one frame and a decision.
Announced : {A : Type 0} → Attempt → StageStatus → Option Text → World → Result A × World → Type 0
Announced {A} a status detail w (r, u) =
    (u.published ≡ w.published)
    ⊎ ((x : A) × (now : ℕ) × (r ≡ ok x)
        × (u.published ≡ frame_of a status detail now ∷ w.published))

announce-after :
    {A : Type 0} (a : Attempt) (status : StageStatus) (detail : Option Text) (env : Env) (w : World)
    (r : Result A × World)
    → r.1.published ≡ w.published
    → Announced a status detail w (then_run env (λ x. publish a status detail >> pure x) r)
unfolding Announced
announce-after a status detail env w (ok x, v) h =
    let q = publish-quiet a status detail env v in
    elim (publish-frames a status detail env v) [
      | inl e ↦ inl (ground (arith, q, e, h))
      | inr e ↦ inr (x, env.clock v.calls, ground (arith, q), ground (arith, q, e, h))
    ]
announce-after a status detail env w (err e, v) h = inl h

-- `fail` publishes at most one frame, and publishes it only if the failure, its counter and the retry
-- or the dead letter are in the store.
pub fail-frames :
    (a : Attempt) (error : Text) (env : Env) (w : World)
    → let u = (fail a error env w).1 in
      (u.published ≡ w.published)
      ⊎ ((d : RetryDecision) × (now : ℕ) × (u.published
            ≡ frame_of a StageStatus.failed (some error) now ∷ w.published)
          × FailureRecorded a error d w.store u.store)
unfolding fail Announced
fail-frames a error env w =
    elim (announce-after a StageStatus.failed (some error) env w
      (transaction (fail_body a error) env w)
      (transaction-Quiet (fail_body a error) (fail_body-Quiet a error) env w)) [
        | inl e ↦ inl e
        | inr (d, now, e, f) ↦ inr (d, now, f, (fail-store a error env w).1 d e)
      ]
