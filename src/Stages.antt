-- ===== src/Stages.antt =====
-- src/modules/stages: the types, the constants and the helpers (retry policy, simulation). The
-- floating-point rolls and rates are exact fractions here.
pub mod Handlers
pub mod Statements
pub mod Runner
pub mod Policy
use order_outbox_lab.Common.{
  ℕ, ◌+◌, ◌-◌, ◌*◌, ◌/◌, ◌<◌, Bool, ◌++◌, Option, none, some, Text, codes, leb, ltb, if◌then◌else◌,
}
use order_outbox_lab.Pipeline.{StageName, stage_text}

pub record StageConfig : Type 0 where
  pub stage : StageName
  pub min_delay_ms : ℕ
  pub max_delay_ms : ℕ
  -- In hundredths: 10 is the source's 0.1.
  pub failure_rate : ℕ

pub data RetryDecision : Type 0 where
  retry dead_letter : RetryDecision

unfoldable pub stage_configs : StageName → StageConfig
stage_configs StageName.payment = record {
  stage = StageName.payment;
  min_delay_ms = 700;
  max_delay_ms = 1500;
  failure_rate = 10;
}
stage_configs StageName.inventory = record {
  stage = StageName.inventory;
  min_delay_ms = 900;
  max_delay_ms = 2000;
  failure_rate = 15;
}
stage_configs StageName.email = record {
  stage = StageName.email;
  min_delay_ms = 400;
  max_delay_ms = 1000;
  failure_rate = 5;
}

abbrev pub max_retries : ℕ
max_retries = 3

abbrev pub backoff_step_ms : ℕ
backoff_step_ms = 1000

unfoldable pub backoff_ms : ℕ → ℕ
backoff_ms attempt = attempt * backoff_step_ms

unfoldable pub next_action_after_failure : ℕ → RetryDecision
next_action_after_failure retry_count =
    if leb max_retries retry_count then RetryDecision.dead_letter else RetryDecision.retry

-- `Math.random()`: num / den, with num < den.
pub record Roll : Type 0 where
  pub num : ℕ
  pub den : ℕ
  pub below_one : num < den

-- `Math.round(min + roll * (max - min))`, which is ⌊x + 1/2⌋.
unfoldable pub simulated_delay_ms : StageConfig → Roll → ℕ
simulated_delay_ms c roll =
    (2 * (c.min_delay_ms * roll.den + roll.num * (c.max_delay_ms - c.min_delay_ms)) + roll.den)
    / (2 * roll.den)

unfoldable pub simulated_failure : StageConfig → Roll → Option Text
unfolding stage_text
simulated_failure c roll =
    if ltb (roll.num * 100) (c.failure_rate * roll.den)
    then some (stage_text c.stage ++ codes " dependency unavailable (simulated)")
    else none
