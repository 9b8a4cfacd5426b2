-- ===== src/Stages/Policy.antt =====
-- The retry policy and the simulation: bounds of the delay, and when an attempt fails.
use Prim.Native.Nat.{suc}
use order_outbox_lab.Common.{
  ℕ, ◌*◌, ◌/◌, ◌≡◌, ◌≤◌, ◌<◌, ◌↔◌, some, Text, codes, ◌++◌, dec_le, arith,
}
use native.Mathlib.Nat.{le-div_iff_mul-le}
use order_outbox_lab.Pipeline.{StageName, stage_text}
use order_outbox_lab.Stages.{
  StageConfig, stage_configs, Roll, simulated_delay_ms, simulated_failure,
}

div-between : (lo hi x k : ℕ) → 0 < k → lo * k ≤ x → x < suc hi * k → (lo ≤ x / k) × (x / k ≤ hi)
div-between lo hi x k positive below above = (
  (le-div_iff_mul-le positive).1 below,
  elim (dec_le (x / k) hi) [
    | yes h ↦ h
    | no n ↦
        let over : suc hi ≤ x / k = omega (arith, n) in
        let big : suc hi * k ≤ x = (le-div_iff_mul-le positive).0 over in
        absurd (omega (arith, big, above))
  ],
)

-- The rounded delay lies between the two delays of the stage, ends included.
pub simulated_delay_ms-bounds :
    (stage : StageName) (roll : Roll)
    → let c = stage_configs stage in
      (c.min_delay_ms ≤ simulated_delay_ms c roll) × (simulated_delay_ms c roll ≤ c.max_delay_ms)
unfolding simulated_delay_ms stage_configs
simulated_delay_ms-bounds StageName.payment roll =
    let below = roll.below_one in
    div-between _ _ _ (2 * roll.den) (omega (arith, below)) (omega (arith, below))
      (omega (arith, below))
simulated_delay_ms-bounds StageName.inventory roll =
    let below = roll.below_one in
    div-between _ _ _ (2 * roll.den) (omega (arith, below)) (omega (arith, below))
      (omega (arith, below))
simulated_delay_ms-bounds StageName.email roll =
    let below = roll.below_one in
    div-between _ _ _ (2 * roll.den) (omega (arith, below)) (omega (arith, below))
      (omega (arith, below))

-- The roll of an attempt fails it exactly when it is under the failure rate of its stage.
pub simulated_failure_iff :
    (c : StageConfig) (roll : Roll)
    → ((error : Text) × (simulated_failure c roll ≡ some error))
      ↔ (roll.num * 100 < c.failure_rate * roll.den)
unfolding simulated_failure
simulated_failure_iff c roll = (
  (λ h. ground (arith, h.1)),
  (λ h. (stage_text c.stage ++ codes " dependency unavailable (simulated)", ground arith)),
)
