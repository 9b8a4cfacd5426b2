-- ===== src/Frames.antt =====
-- src/modules/stage-events/types/stage-events.types.ts: the wire contract between the stages, the
-- status watcher and the dashboard. `created_at` is the instant that the ISO text names.
use order_outbox_lab.Common.{ℕ, Option, Text, ℕ_discrete}
use order_outbox_lab.Pipeline.{StageName, StageStatus}

pub record StageEventFrame : Type 0 where
  pub order_id : ℕ
  pub stage : StageName
  pub status : StageStatus
  pub attempt : ℕ
  pub detail : Option Text
  pub created_at : ℕ

-- One call of `StageRunner.run` by the handler of `stage`.
pub record Attempt : Type 0 where
  pub order_id : ℕ
  pub stage : StageName
  pub attempt : ℕ

unfoldable pub Attempt-discrete : Discrete Attempt
unfolding ℕ_discrete
Attempt-discrete = hlevel ℕ_discrete
