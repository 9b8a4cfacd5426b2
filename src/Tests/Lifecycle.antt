-- ===== src/Tests/Lifecycle.antt =====
-- The theorems on what the outbox owes and on the lifecycle of a stage, at the states of one short
-- history.
use order_outbox_lab.Common.{◌≡◌, ◌≤◌, ◌+◌, ◌*◌, refl, arith}
use order_outbox_lab.Stages.{max_retries}
use order_outbox_lab.Stages.Runner.{pair_of}
use order_outbox_lab.System.Phases.{phase_of, Phase}
use order_outbox_lab.System.Phases.Moves.{changes, moves_left, lifecycle_ends}
use order_outbox_lab.Common.{some}
use order_outbox_lab.Pipeline.{StageName, OrderStatus}
use order_outbox_lab.Status.Settling.{status_of}
use order_outbox_lab.System.{System, initial}
use order_outbox_lab.Effects.{World}
use order_outbox_lab.Database.{OutboxEntity}
use order_outbox_lab.Outbox.{outbox_row, claim_rows}
use order_outbox_lab.Outbox.Relay.{claim_and_emit, emissions}
use order_outbox_lab.Status.{recompute}
use order_outbox_lab.Stages.{Roll, stage_configs, simulated_failure}
use order_outbox_lab.System.Finishing.Running.{Rolls, first_of, run_stages}
use order_outbox_lab.System.Finishing.Fulfilling.{IsOpening, opening-fulfils}
use order_outbox_lab.Common.{without, contains, Memᴰ, List, [], ◌∷◌, ◌++◌, none, true, false}
use order_outbox_lab.Frames.{Attempt-discrete}
use order_outbox_lab.System.{later, claims, crashes}
use order_outbox_lab.System.Finishing.Lost.{IsLost, IsLost-Step}
use order_outbox_lab.System.Working.{works, is_attempt, is_of, works_once}
use order_outbox_lab.Samples.Sorting.{sample_sorter}
use order_outbox_lab.Samples.History.{
  after_create, after_claim, payment, calm, claimed, completed, failed_once, dead, program,
  claimed-Reached, dead-Reached,
}

-- The phases of a payment that fails three times, and of one that completes.
phases :
    (phase_of claimed.world.store (pair_of (payment 1)) ≡ Phase.active 1)
    × (phase_of failed_once.world.store (pair_of (payment 1)) ≡ Phase.waiting 2)
    × (phase_of dead.world.store (pair_of (payment 1)) ≡ Phase.dead_lettered)
    × (phase_of completed.world.store (pair_of (payment 1)) ≡ Phase.done 1)
unfolding program phase_of
phases = (refl, refl, refl, refl)

lifecycle_ends_example :
    changes (pair_of (payment 1)) dead-Reached
      + moves_left (phase_of dead.world.store (pair_of (payment 1)))
    ≤ 2 * max_retries
lifecycle_ends_example = lifecycle_ends dead-Reached (pair_of (payment 1))

-- The process that works on the payment dies, and the payment is delivered again.
abbrev crashed : System
crashed = record claimed { running = without Attempt-discrete (payment 1) claimed.running }

IsLost-Step_example :
    IsLost
      (after_claim (payment 1) crashed).world.store
      (after_claim (payment 1) crashed).running
      (pair_of (payment 1))
      1
unfolding program phase_of without
IsLost-Step_example =
    IsLost-Step (later claimed-Reached (crashes claimed (payment 1)))
      (claims crashed calm (payment 1) refl) (pair_of (payment 1)) 1 (refl, refl)

-- On the run of the payment that fails three times.
works_once_example :
    (works (is_attempt (payment 2)) dead-Reached ≤ 1)
    × (works (is_of (pair_of (payment 2))) dead-Reached ≤ max_retries)
works_once_example = works_once dead-Reached (payment 2)

-- A new order, whose payment is called for twice. A roll of 99 in 100 passes.
abbrev opened : World
opened = (after_create initial).world

abbrev opening_row : OutboxEntity
opening_row =
    outbox_row (record { order_id = 1; stage = none; attempt = 1; available_at = none })
      (record { id = 2; now = 1000 })

opening_row-IsOpening : IsOpening opening_row opened.store
unfolding program
opening_row-IsOpening = record {
  untagged = refl;
  first = refl;
  pending = refl;
  unstarted = λ stage. refl;
}

abbrev high : Roll
high = record { num = 99; den = 100; below_one = omega arith }

passing : (stage : StageName) → Rolls stage
unfolding simulated_failure stage_configs
passing StageName.payment = record { delay = high; failure = high; passes = refl }
passing StageName.inventory = record { delay = high; failure = high; passes = refl }
passing StageName.email = record { delay = high; failure = high; passes = refl }

abbrev stage_calls : List StageName
stage_calls = StageName.email ∷ StageName.payment ∷ StageName.payment ∷ StageName.inventory ∷ []

each_called : (stage : StageName) → Memᴰ stage stage_calls
each_called StageName.email = Memᴰ.head refl
each_called StageName.payment = Memᴰ.tail (Memᴰ.head refl)
each_called StageName.inventory = Memᴰ.tail (Memᴰ.tail (Memᴰ.tail (Memᴰ.head refl)))

opening-fulfils_example :
    let w = (claim_and_emit sample_sorter (λ id. false) calm opened).1 in
    let u = run_stages 1 passing stage_calls calm w in
    let called =
      emissions (
        claim_rows sample_sorter (λ id. false) (calm.stamp opened.calls).now opened.store.outbox) in
    (w.delivered ≡ called ++ opened.delivered)
    × ((stage : StageName) → contains Attempt-discrete (first_of 1 stage) called ≡ true)
    × (status_of 1 (recompute 1 calm u).1.store.orders ≡ some OrderStatus.fulfilled)
unfolding program
opening-fulfils_example =
    opening-fulfils sample_sorter (λ id. false) calm (λ n. refl) opened opening_row
      opening_row-IsOpening (Memᴰ.head refl) passing stage_calls each_called
