-- ===== src/Stages/Runner.antt =====
-- `StageRunner` of src/modules/stages/services/stage-runner.service.ts: claim the attempt, do the
-- work, record the outcome, and finish or hand a retry to the outbox. Log lines are left out.
pub mod Outcomes
pub mod Claims
pub mod Frames
pub mod Succeeding
pub mod Progress
pub mod Decimal
use order_outbox_lab.Common.{
  ℕ, zero, suc, ◌+◌, ◌-◌, ◌/◌, ◌%◌, Bool, true, false, [], ◌∷◌, ◌++◌, Option, none, some, Text,
  codes, leb, ltb, if◌then◌else◌,
}
use order_outbox_lab.Pipeline.{StageStatus}
use order_outbox_lab.Database.{EventKey, RetryKey}
use order_outbox_lab.Frames.{Attempt, StageEventFrame}
use order_outbox_lab.Effects.{
  M, ◌>>=◌, ◌>>◌, pure, query, transaction, date_now, publish_frame, catching, wait,
}
use order_outbox_lab.Outbox.{OutboxEntry, enqueue_outbox}
use order_outbox_lab.Stages.{
  RetryDecision, Roll, stage_configs, backoff_ms, next_action_after_failure, simulated_delay_ms,
  simulated_failure,
}
use order_outbox_lab.Stages.Statements.{insert_event, upsert_retry, dead_letter}

abbrev pub key_of : Attempt → StageStatus → EventKey
key_of a status = record {
  order_id = a.order_id;
  stage = a.stage;
  attempt = a.attempt;
  status = status;
}

abbrev pub pair_of : Attempt → RetryKey
pair_of a = record { order_id = a.order_id; stage = a.stage }

-- The method `record`.
unfoldable pub record_event : Attempt → StageStatus → Option Text → M Bool
record_event a status detail = query (insert_event (key_of a status) detail)

abbrev pub frame_of : Attempt → StageStatus → Option Text → ℕ → StageEventFrame
frame_of a status detail now = record {
  order_id = a.order_id;
  stage = a.stage;
  status = status;
  attempt = a.attempt;
  detail = detail;
  created_at = now;
}

-- A bus failure is swallowed.
unfoldable pub publish : Attempt → StageStatus → Option Text → M (Unit {0})
publish a status detail =
    catching tt (date_now >>= λ now. publish_frame (frame_of a status detail now))

abbrev after_claim : Attempt → Bool → M Bool
after_claim a true = publish a StageStatus.started none >> pure true
after_claim a false = pure false

unfoldable pub claim : Attempt → M Bool
claim a = record_event a StageStatus.started none >>= after_claim a

-- The retry that `fail` queues at the instant `now`.
abbrev pub retry_entry : Attempt → ℕ → OutboxEntry
retry_entry a now = record {
  order_id = a.order_id;
  stage = some a.stage;
  attempt = a.attempt + 1;
  available_at = some (now + backoff_ms a.attempt);
}

abbrev pub after_failure : Attempt → RetryDecision → M (Unit {0})
after_failure a RetryDecision.dead_letter = query (dead_letter (pair_of a))
after_failure a RetryDecision.retry = date_now >>= λ now. enqueue_outbox (retry_entry a now)

abbrev pub decide : Attempt → ℕ → M RetryDecision
decide a count =
    after_failure a (next_action_after_failure count) >> pure (next_action_after_failure count)

abbrev pub count_failure : Attempt → Text → M RetryDecision
count_failure a error = query (upsert_retry (pair_of a) error) >>= decide a

-- The transaction of `fail`.
unfoldable pub fail_body : Attempt → Text → M RetryDecision
fail_body a error = record_event a StageStatus.failed (some error) >>= λ _. count_failure a error

unfoldable pub fail : Attempt → Text → M RetryDecision
fail a error = do
  decision ← transaction (fail_body a error)
  publish a StageStatus.failed (some error)
  pure decision

-- A number as `${n}` prints it; `fuel` bounds its digits.
unfoldable pub decimal_from : ℕ → ℕ → Text → Text
decimal_from zero n acc = acc
decimal_from (suc fuel) n acc =
    let digits = (b'0' + n % 10) ∷ acc in
    let more = decimal_from fuel (n / 10) digits in if ltb n 10 then digits else more

unfoldable pub decimal : ℕ → Text
unfolding decimal_from
decimal n = decimal_from (suc n) n []

-- `${now - started}ms`
abbrev pub duration_text : ℕ → ℕ → Text
duration_text started now =
    if leb started now
    then decimal (now - started) ++ codes "ms"
    else codes "-" ++ (decimal (started - now) ++ codes "ms")

unfoldable pub complete : Attempt → Text → M (Unit {0})
complete a detail = do
  _ ← record_event a StageStatus.completed (some detail)
  publish a StageStatus.completed (some detail)

abbrev pub outcome_of : Attempt → Text → Option Text → M (Unit {0})
outcome_of a detail none = complete a detail
outcome_of a detail (some error) = fail a error >> pure tt

abbrev pub work : Attempt → Roll → Roll → M (Unit {0})
work a delay_roll failure_roll = do
  started ← date_now
  wait (simulated_delay_ms (stage_configs a.stage) delay_roll)
  now ← date_now
  outcome_of a (duration_text started now) (simulated_failure (stage_configs a.stage) failure_roll)

abbrev pub if_claimed : Attempt → Roll → Roll → Bool → M (Unit {0})
if_claimed a delay_roll failure_roll true = work a delay_roll failure_roll
if_claimed a delay_roll failure_roll false = pure tt

unfoldable pub attempt : Attempt → Roll → Roll → M (Unit {0})
attempt a delay_roll failure_roll = claim a >>= if_claimed a delay_roll failure_roll

-- Errors are logged and the attempt is lost.
unfoldable pub run : Attempt → Roll → Roll → M (Unit {0})
run a delay_roll failure_roll = catching tt (attempt a delay_roll failure_roll)
