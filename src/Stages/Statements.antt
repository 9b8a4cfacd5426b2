-- ===== src/Stages/Statements.antt =====
-- The SQL of src/modules/stages/services/stage-runner.service.ts, statement by statement. A
-- result `none` is a violated foreign key, on which Postgres raises an error.
pub mod Counters
pub mod Events
use Prim.Native.Nat.{suc}
use order_outbox_lab.Common.{
  ℕ, Bool, true, false, List, [], ◌∷◌, map, Option, none, some, Text, ite, contains, if◌then◌else◌,
}
use order_outbox_lab.Pipeline.{StageRetryStatus}
use order_outbox_lab.Database.{
  OrderStageEventEntity, StageRetryEntity, Store, Stamp, EventKey, RetryKey, EventKey-discrete,
  RetryKey-discrete, event_key, retry_key, has_order,
}

abbrev pub event_row : EventKey → Option Text → Stamp → OrderStageEventEntity
event_row k detail t = record {
  id = t.id;
  order_id = k.order_id;
  stage = k.stage;
  status = k.status;
  attempt = k.attempt;
  detail = detail;
  created_at = t.now;
}

-- Does the unique index hold the key?
unfoldable pub has_event : EventKey → List OrderStageEventEntity → Bool
unfolding contains
has_event k events = contains EventKey-discrete k (map event_key events)

-- `INSERT INTO order_stage_events … ON CONFLICT DO NOTHING RETURNING id`; true if a row came back.
unfoldable pub insert_event : EventKey → Option Text → Stamp → Store → Option (Bool × Store)
insert_event k detail t s =
    if has_event k s.stage_events
    then some (false, s)
    else (if has_order k.order_id s.orders
        then some (true, record s { stage_events = event_row k detail t ∷ s.stage_events })
        else none)

abbrev pub first_failure : RetryKey → Text → StageRetryEntity
first_failure k error = record {
  order_id = k.order_id;
  stage = k.stage;
  retry_count = 1;
  status = StageRetryStatus.pending;
  last_error = some error;
}

-- The rows after `INSERT … ON CONFLICT (order_id, stage) DO UPDATE`.
unfoldable pub upsert_rows : RetryKey → Text → List StageRetryEntity → List StageRetryEntity
upsert_rows k error [] = first_failure k error ∷ []
upsert_rows k error (r ∷ rs) =
    ite (RetryKey-discrete (retry_key r) k)
      (record r { retry_count = suc r.retry_count; last_error = some error } ∷ rs)
      (r ∷ upsert_rows k error rs)

unfoldable pub has_retry : RetryKey → List StageRetryEntity → Bool
has_retry k [] = false
has_retry k (r ∷ rs) = ite (RetryKey-discrete (retry_key r) k) true (has_retry k rs)

-- The counter of the row with the key; 0 where there is none.
unfoldable pub retry_count : RetryKey → List StageRetryEntity → ℕ
retry_count k [] = 0
retry_count k (r ∷ rs) = ite (RetryKey-discrete (retry_key r) k) r.retry_count (retry_count k rs)

-- The upsert with `RETURNING retry_count`. Where it inserts, the foreign key is checked.
unfoldable pub upsert_retry : RetryKey → Text → Stamp → Store → Option (ℕ × Store)
upsert_retry k error t s =
    let rows = upsert_rows k error s.stage_retries in
    if has_retry k s.stage_retries
    then some (retry_count k rows, record s { stage_retries = rows })
    else (if has_order k.order_id s.orders
        then some (retry_count k rows, record s { stage_retries = rows })
        else none)

unfoldable pub dead_letter_rows : RetryKey → List StageRetryEntity → List StageRetryEntity
dead_letter_rows k [] = []
dead_letter_rows k (r ∷ rs) =
    ite (RetryKey-discrete (retry_key r) k) (record r { status = StageRetryStatus.dead_lettered }) r
    ∷ dead_letter_rows k rs

-- `manager.update(StageRetryEntity, { orderId, stage }, { status: 'dead_lettered' })`
unfoldable pub dead_letter : RetryKey → Stamp → Store → Option (Unit {0} × Store)
dead_letter k t s = some (tt, record s { stage_retries = dead_letter_rows k s.stage_retries })
