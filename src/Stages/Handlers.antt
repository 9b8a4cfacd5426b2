-- ===== src/Stages/Handlers.antt =====
-- src/modules/stages/services/stage-handler.factory.ts: one handler for each stage, and the events
-- that it subscribes to. The emitter calls every handler that subscribed to the name.
use order_outbox_lab.Common.{
  Bool, ◌||◌, ◌-◌, ◌&&◌, leb, List, [], ◌∷◌, ◌++◌, map, Text, codes, text_eq, if◌then◌else◌, keep,
}
use order_outbox_lab.Pipeline.{
  StageName, StageAction, OrderEvent, stages, stage_text, stage_event, order_event_text,
}
use order_outbox_lab.Database.{OutboxPayload}
use order_outbox_lab.Frames.{Attempt}
use order_outbox_lab.Stages.{StageConfig, stage_configs}

-- `toUpperCase` of one letter of a stage name, which is lower-case ASCII.
abbrev pub upper_first : Text → Text
upper_first [] = []
upper_first (c ∷ s) = (if leb b'a' c && leb c b'z' then c - 32 else c) ∷ s

unfoldable pub stage_handler_name : StageName → Text
unfolding stage_text
stage_handler_name stage = upper_first (stage_text stage) ++ codes "Service"

-- The two `@OnEvent` subscriptions of a handler; both call `run(payload.orderId, payload.attempt)`.
pub record StageHandler : Type 0 where
  pub config : StageConfig
  pub on_order_created : Text
  pub on_retry : Text
  pub name : Text

unfoldable pub stage_handler : StageConfig → StageHandler
unfolding order_event_text stage_event stage_handler_name
stage_handler config = record {
  config = config;
  on_order_created = order_event_text OrderEvent.created;
  on_retry = stage_event config.stage StageAction.retry;
  name = stage_handler_name config.stage;
}

unfoldable pub stage_handlers : List StageHandler
unfolding stage_handler stage_configs
stage_handlers = map (λ stage. stage_handler (stage_configs stage)) stages

abbrev pub listens : Text → StageHandler → Bool
listens name h = text_eq name h.on_order_created || text_eq name h.on_retry

abbrev pub call_of : OutboxPayload → StageHandler → Attempt
call_of p h = record { order_id = p.order_id; stage = h.config.stage; attempt = p.attempt }

-- The calls of `run` that `events.emit(name, payload)` makes.
unfoldable pub emit : Text → OutboxPayload → List Attempt
unfolding stage_handlers keep text_eq
emit name payload = map (call_of payload) (keep (listens name) stage_handlers)
