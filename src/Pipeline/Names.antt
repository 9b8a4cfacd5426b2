-- ===== src/Pipeline/Names.antt =====
-- The event names of src/shared/pipeline.ts, compared.
use order_outbox_lab.Common.{◌≡◌, ◌≢◌, arith}
use order_outbox_lab.Pipeline.{StageName, StageAction, OrderEvent, stage_event, order_event_text}

stage_event-injective :
    (s t : StageName) → stage_event s StageAction.retry ≡ stage_event t StageAction.retry → s ≡ t
unfolding stage_event
stage_event-injective s t h = ground arith

stage_event-order_event :
    (s : StageName) → stage_event s StageAction.retry ≢ order_event_text OrderEvent.created
unfolding stage_event order_event_text
stage_event-order_event s h = ground arith

-- The retry events of two stages have different names, and none has the name of the event of a new
-- order.
pub names_distinct :
    (s t : StageName)
    → (stage_event s StageAction.retry ≡ stage_event t StageAction.retry → s ≡ t)
      × (stage_event s StageAction.retry ≢ order_event_text OrderEvent.created)
names_distinct s t = (stage_event-injective s t, stage_event-order_event s)
