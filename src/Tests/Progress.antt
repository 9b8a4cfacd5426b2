-- ===== src/Tests/Progress.antt =====
-- The theorems on calls that succeed, at the states of the sample history.
use order_outbox_lab.Common.{◌≡◌, ◌*◌, refl, true, false, some, arith}
use order_outbox_lab.Pipeline.{OrderStatus}
use order_outbox_lab.Effects.{Env}
use order_outbox_lab.Orders.Validation.{CreateOrderInput}
use order_outbox_lab.Common.{codes, ◌+◌}
use order_outbox_lab.Stages.{Roll}
use order_outbox_lab.Stages.Runner.{run}
use order_outbox_lab.Stages.Runner.Progress.{Ended, run-Ended}
use order_outbox_lab.Status.{all_completed, has_dead_letter, recompute}
use order_outbox_lab.Status.Settling.{status_of}
use order_outbox_lab.System.Progress.{recompute-settles}
use order_outbox_lab.Samples.History.{calm, payment, relayed, all_done, program, all_done-Reached}

abbrev ada : CreateOrderInput
ada = record { customer_name = codes "Ada"; amount = codes "042.00" }

recompute-settles_example :
    let after = status_of 1 (recompute 1 calm all_done.world).1.store.orders in
    (all_completed 1 all_done.world.store.stage_events ≡ true → after ≡ some OrderStatus.fulfilled)
    × (has_dead_letter 1 all_done.world.store.stage_retries ≡ true
        → after ≡ some OrderStatus.failed)
    × (all_completed 1 all_done.world.store.stage_events ≡ false
        → has_dead_letter 1 all_done.world.store.stage_retries ≡ false
        → after ≡ some OrderStatus.pending)
unfolding program
recompute-settles_example = recompute-settles all_done-Reached 1 calm refl refl refl

abbrev low : Roll
low = record { num = 0; den = 2; below_one = omega arith }

-- The ids of `calm` from call 2 on are new; a shift by 2 makes all of them so.
abbrev shifted : Env
shifted = record calm { stamp = λ n. record { id = n + 3; now = 1000 * n } }

run-Ended_example :
    Ended (payment 1) shifted (λ n. refl) (run (payment 1) low low shifted relayed.world).1.store
unfolding program
run-Ended_example =
    run-Ended (payment 1) shifted (λ n. refl) low low relayed.world refl (λ n. ground arith) refl
