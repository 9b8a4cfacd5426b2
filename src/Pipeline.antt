-- ===== src/Pipeline.antt =====
-- src/shared/pipeline.ts and src/shared/order.enum.ts: the vocabulary that every module shares.
-- An enum is a data type; the string that the source gives a member is `..._text`.
pub mod Names
use order_outbox_lab.Common.{ℕ, Bool, true, false, List, [], ◌∷◌, ◌++◌, Text, codes, length}

pub data StageName : Type 0 where
  payment inventory email : StageName

pub data StageStatus : Type 0 where
  started completed failed : StageStatus

pub data OrderStatus : Type 0 where
  pending fulfilled failed : OrderStatus

pub data StageRetryStatus : Type 0 where
  pending dead_lettered : StageRetryStatus

pub data OrderEvent : Type 0 where
  created : OrderEvent

pub data EventChannel : Type 0 where
  stage_events : EventChannel

pub data StageAction : Type 0 where
  retry : StageAction

-- Sort direction of a list query.
pub data Order : Type 0 where
  asc desc : Order

unfoldable pub StageName-discrete : Discrete StageName
StageName-discrete = hlevel

unfoldable pub StageStatus-discrete : Discrete StageStatus
StageStatus-discrete = hlevel

unfoldable pub OrderStatus-discrete : Discrete OrderStatus
OrderStatus-discrete = hlevel

unfoldable pub stage_text : StageName → Text
stage_text StageName.payment = codes "payment"
stage_text StageName.inventory = codes "inventory"
stage_text StageName.email = codes "email"

unfoldable pub order_event_text : OrderEvent → Text
order_event_text OrderEvent.created = codes "order.created"

unfoldable pub channel_text : EventChannel → Text
channel_text EventChannel.stage_events = codes "stage_events"

unfoldable pub action_text : StageAction → Text
action_text StageAction.retry = codes "retry"

-- `${stage}.${action}`
unfoldable pub stage_event : StageName → StageAction → Text
unfolding stage_text action_text
stage_event stage action = stage_text stage ++ (codes "." ++ action_text action)

abbrev pub stages : List StageName
stages = StageName.payment ∷ StageName.inventory ∷ StageName.email ∷ []

abbrev pub stage_count : ℕ
stage_count = length stages

-- Tests against one member.
abbrev pub is_completed : StageStatus → Bool
is_completed StageStatus.completed = true
is_completed _ = false

abbrev pub is_dead : StageRetryStatus → Bool
is_dead StageRetryStatus.dead_lettered = true
is_dead _ = false

abbrev pub is_pending : OrderStatus → Bool
is_pending OrderStatus.pending = true
is_pending _ = false
