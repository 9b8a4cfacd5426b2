-- ===== src/Outbox/Relay.antt =====
-- `OutboxRelayService` of src/modules/outbox/services/outbox-relay.service.ts: one tick claims a
-- batch, emits it and marks it, in one transaction.
pub mod Delivery
pub mod Halves
use order_outbox_lab.Common.{
  ℕ, ◌≡◌, refl, Bool, true, false, List, [], ◌∷◌, ◌++◌, map, Option, none, some, Text, length,
  if◌then◌else◌,
}
use order_outbox_lab.Pipeline.{
  StageName, StageAction, OrderEvent, stages, stage_event, order_event_text,
}
use order_outbox_lab.Database.{OutboxPayload, OutboxEntity}
use order_outbox_lab.Database.Query.{Sorter}
use order_outbox_lab.Frames.{Attempt}
use order_outbox_lab.Effects.{
  Env, World, Error, Result, ok, err, M, ◌>>=◌, ◌>>◌, pure, query, transaction, date_now, emit_all,
}
use order_outbox_lab.Outbox.{select_claimable, mark_processed}
use order_outbox_lab.Stages.Handlers.{emit}

-- A tagged row retries one stage; an untagged one fans out to all three.
unfoldable pub relay_event : Option StageName → Text
relay_event none = order_event_text OrderEvent.created
relay_event (some stage) = stage_event stage StageAction.retry

unfoldable pub emissions : List OutboxEntity → List Attempt
emissions [] = []
emissions (row ∷ rows) = emit (relay_event row.stage) row.payload ++ emissions rows

abbrev pub emit_and_mark : List OutboxEntity → M ℕ
emit_and_mark [] = pure 0
emit_and_mark (row ∷ rows) = do
  emit_all (emissions (row ∷ rows))
  at ← date_now
  query (mark_processed (map (λ r. r.id) (row ∷ rows)) at)
  pure (length (row ∷ rows))

unfoldable pub claim_body : Sorter → (ℕ → Bool) → M ℕ
claim_body sorter locked = query (select_claimable sorter locked) >>= emit_and_mark

-- `locked` are the outbox rows that other transactions hold at the SELECT.
unfoldable pub claim_and_emit : Sorter → (ℕ → Bool) → M ℕ
claim_and_emit sorter locked = transaction (claim_body sorter locked)

pub record RelayService : Type 0 where
  pub running : Bool

-- The line that a tick logs.
pub data TickLog : Type 0 where
  locked_rows : ℕ → TickLog
  tick_failed : Error → TickLog

abbrev log_of : Result ℕ → TickLog
log_of (ok n) = locked_rows n
log_of (err e) = tick_failed e

abbrev finish_tick : RelayService → Result ℕ × World → (RelayService × Option TickLog) × World
finish_tick svc (r, w) = ((record svc { running = false }, some (log_of r)), w)

-- `poll`: never throws, and leaves at once while a tick is running.
unfoldable pub poll :
    Sorter → (ℕ → Bool) → RelayService → Env → World → (RelayService × Option TickLog) × World
poll sorter locked svc env w =
    if svc.running
    then ((svc, none), w)
    else finish_tick (record svc { running = true }) (claim_and_emit sorter locked env w)

-- The calls of `run` that a row is meant to cause.
abbrev pub intended : Option StageName → OutboxPayload → List Attempt
intended none p = map (λ s. record { order_id = p.order_id; stage = s; attempt = p.attempt }) stages
intended (some stage) p = record { order_id = p.order_id; stage = stage; attempt = p.attempt } ∷ []

-- An untagged row calls the handlers of all three stages, a tagged one the handler of its stage and no
-- other, with the order and the attempt of its payload.
pub emit-intended :
    (tag : Option StageName) (p : OutboxPayload) → emit (relay_event tag) p ≡ intended tag p
unfolding emit relay_event stage_event order_event_text
emit-intended none p = refl
emit-intended (some StageName.payment) p = refl
emit-intended (some StageName.inventory) p = refl
emit-intended (some StageName.email) p = refl
