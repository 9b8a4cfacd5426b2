-- ===== src/StageEvents.antt =====
-- src/modules/stage-events: the audit log of one order, the streams that the live service hands out,
-- and, from src/modules/status, what the status watcher does with a sequence of frames.
pub mod Streams
pub mod Service
use order_outbox_lab.Common.{
  ℕ, Bool, true, false, List, [], ◌∷◌, Text, codes, leb, ◌==◌, keep, map, if◌then◌else◌,
}
use order_outbox_lab.Pipeline.{StageStatus, Order}
use order_outbox_lab.Database.{OrderStageEventEntity}
use order_outbox_lab.Database.Query.{Sorter, directed, find}
use order_outbox_lab.Frames.{StageEventFrame}
use order_outbox_lab.Effects.{M, ◌>>◌, pure}
use order_outbox_lab.Queries.{BaseQuery}
use order_outbox_lab.Status.{on_settled}

abbrev pub event_wanted : ℕ → OrderStageEventEntity → Bool
event_wanted order_id e = e.order_id == order_id

abbrev pub by_id : Order → OrderStageEventEntity → OrderStageEventEntity → Bool
by_id d = directed d (λ a b. leb a.id b.id)

-- `StageEventHistoryService.listForOrder`
unfoldable pub list_for_order :
    Sorter → ℕ → BaseQuery → List OrderStageEventEntity → List OrderStageEventEntity
unfolding find
list_for_order sorter order_id q events =
    find sorter (event_wanted order_id) (by_id q.order) q.limit events

-- `event.status !== StageStatus.Started`
abbrev pub is_settling : StageStatus → Bool
is_settling StageStatus.started = false
is_settling StageStatus.completed = true
is_settling StageStatus.failed = true

-- The frames that the subject passes on, in the order of the subject.
unfoldable pub for_order : ℕ → List StageEventFrame → List StageEventFrame
unfolding keep
for_order order_id frames = keep (λ f. f.order_id == order_id) frames

unfoldable pub settled : List StageEventFrame → List StageEventFrame
unfolding keep
settled frames = keep (λ f. is_settling f.status) frames

-- An SSE message of the stream of one order.
pub record StageMessage : Type 0 where
  pub type : Text
  pub «data» : StageEventFrame

unfoldable pub stream : ℕ → List StageEventFrame → List StageMessage
unfolding for_order
stream order_id frames =
    map (λ f. record { type = codes "stage"; «data» = f }) (for_order order_id frames)

-- The subscriber of `OrderStatusService.onModuleInit`, called for each frame that `settled` passes.
unfoldable pub on_frames : List StageEventFrame → M (Unit {0})
on_frames [] = pure tt
on_frames (f ∷ fs) = on_settled f >> on_frames fs

unfoldable pub watch : List StageEventFrame → M (Unit {0})
watch frames = on_frames (settled frames)
