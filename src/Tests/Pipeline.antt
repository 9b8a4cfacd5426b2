-- ===== src/Tests/Pipeline.antt =====
-- The theorems on reachable states, at the states of one short history.
use order_outbox_lab.Common.{ℕ, ◌≡◌, ◌≤◌, ◌↔◌, refl, true, false, some, length, suc}
use order_outbox_lab.Pipeline.{StageName, StageStatus, OrderStatus}
use order_outbox_lab.Stages.{max_retries}
use order_outbox_lab.Stages.Statements.Counters.{retry_dead}
use order_outbox_lab.Stages.Runner.{pair_of}
use order_outbox_lab.Status.{has_dead_letter}
use order_outbox_lab.System.{recomputes}
use order_outbox_lab.System.Facts.{logged, failures}
use order_outbox_lab.Status.Settling.{status_of}
use order_outbox_lab.Status.Moves.{StatusMove}
use order_outbox_lab.Status.Deciding.{CompletedIn, DeadIn}
use order_outbox_lab.System.Settled.{status_moves, settled_is_justified}
use order_outbox_lab.System.Overlap.Results.{Reach-Reached}
use order_outbox_lab.System.Safety.{
  attempts_bounded, failures_counted, completed_is_final, one_in_progress, conditions_exclusive,
}
use order_outbox_lab.Samples.History.{
  calm, payment, claimed, completed, failed_once, dead, all_done, fulfilled, program,
  claimed-Reached, completed-Reached, dead-Reached, all_done-Reached, fulfilled-Reached,
}

-- The relay reaches the three stages; a failure queues one tagged row for the next attempt.
runs :
    (length claimed.world.delivered ≡ 3)
    × (length failed_once.world.store.outbox ≡ 2)
    × (length dead.world.store.outbox ≡ 3)
    × (failures dead.world.store (payment 1) ≡ 3)
unfolding program
runs = (refl, refl, refl, refl)

attempts_bounded_example : (1 ≤ 3) × (3 ≤ max_retries)
unfolding program
attempts_bounded_example = attempts_bounded (Reach-Reached dead-Reached) (payment 3) refl

failures_counted_example :
    (logged dead.world.store (payment 2) StageStatus.failed ≡ true)
    ↔ ((1 ≤ 2) × (2 ≤ failures dead.world.store (payment 2)))
failures_counted_example = failures_counted (Reach-Reached dead-Reached) (payment 2)

completed_is_final_example :
    (logged completed.world.store (payment 1) StageStatus.failed ≡ false)
    × (logged completed.world.store (payment 2) StageStatus.started ≡ true → 2 ≤ 1)
    × (logged completed.world.store (payment 2) StageStatus.completed ≡ true
        → payment 1 ≡ payment 2)
    × (retry_dead (pair_of (payment 1)) completed.world.store.stage_retries ≡ false)
unfolding program
completed_is_final_example =
    completed_is_final (Reach-Reached completed-Reached) (payment 1) (payment 2) refl refl

one_in_progress_example :
    (payment 1 ≡ payment 1) × (◌≡◌ {A = ℕ} 1 (suc (failures claimed.world.store (payment 1))))
unfolding program
one_in_progress_example =
    one_in_progress (Reach-Reached claimed-Reached) (payment 1) (payment 1) refl refl refl

conditions_exclusive_example : has_dead_letter 1 all_done.world.store.stage_retries ≡ false
unfolding program
conditions_exclusive_example = conditions_exclusive (Reach-Reached all_done-Reached) 1 refl

status_moves_example :
    StatusMove 1 all_done.world.store
      (status_of 1 all_done.world.store.orders)
      (status_of 1 fulfilled.world.store.orders)
status_moves_example = status_moves all_done-Reached (recomputes all_done calm 1) 1

settled_is_justified_example :
    (status_of 1 fulfilled.world.store.orders ≡ some OrderStatus.fulfilled
      → (stage : StageName) → CompletedIn fulfilled.world.store.stage_events 1 stage)
    × (status_of 1 fulfilled.world.store.orders ≡ some OrderStatus.failed
        → DeadIn fulfilled.world.store.stage_retries 1)
settled_is_justified_example = settled_is_justified fulfilled-Reached 1
