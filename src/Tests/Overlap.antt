-- ===== src/Tests/Overlap.antt =====
-- Two instances whose ticks overlap: the second order is created, and claimed by instance 1, while
-- instance 0 has the row of the first order.
use order_outbox_lab.Common.{
  ℕ, ◌≡◌, ◌≤◌, ◌↔◌, refl, suc, Bool, true, false, List, [], ◌∷◌, some, contains, ℕ_discrete, All,
  arith, codes,
}
use order_outbox_lab.Database.{OutboxEntity}
use order_outbox_lab.Frames.{Attempt, Attempt-discrete}
use order_outbox_lab.Outbox.{claim_rows}
use order_outbox_lab.Outbox.Relay.Delivery.{ids}
use order_outbox_lab.Outbox.Relay.Halves.{emit_batch, finish_batch}
use order_outbox_lab.Stages.{max_retries}
use order_outbox_lab.System.{initial, creates, fails}
use order_outbox_lab.System.Phases
use order_outbox_lab.System.Phases.{phase_of}
use order_outbox_lab.System.Overlap.Moving.{overlapped_lifecycle}
use order_outbox_lab.Stages.Runner.{pair_of}
use order_outbox_lab.System.Facts.{failures}
use order_outbox_lab.System.Owed.{Covered, causes}
use order_outbox_lab.System.Overlap.{
  Overlap, batch_of, without_tick, holds, skipped, opened, closed, empty, calls, opens, finishes,
  Reached, start, later,
}
use order_outbox_lab.System.Overlap.Results.{
  overlapped-IsDue_iff, open_ticks_exclusive, Reach-Reached,
}
use order_outbox_lab.System.Overlap.Once.{row_of, processed_is_final}
use order_outbox_lab.Samples.Sorting.{sample_sorter}
use order_outbox_lab.Samples.Numbers.{sample_js}
use order_outbox_lab.Samples.History.{
  after_create, calm, sample_body, payment, program, failed_once, claimed, claimed-Reached,
}

unfoldable ticks_program : Unit {0}
unfolding program emit_batch finish_batch batch_of without_tick holds row_of
ticks_program = tt

abbrev nobody : ℕ → Bool
nobody id = false

abbrev open_by : ℕ → Overlap → Overlap
open_by i o = opened i o (emit_batch sample_sorter (skipped o.ticks nobody) calm o.world)

abbrev order_by_step : Overlap → Overlap
order_by_step o = record { system = after_create o.system; ticks = o.ticks }

abbrev one_open : Overlap
one_open = open_by 0 (order_by_step empty)

abbrev two_open : Overlap
two_open = open_by 1 (order_by_step one_open)

abbrev AreReached : Overlap → Type 0
AreReached = Reached sample_sorter sample_js

one_open-Reached : AreReached one_open
unfolding ticks_program
one_open-Reached =
    later (later start (calls [] (creates initial calm sample_body) refl))
      (opens (order_by_step empty) calm 0 nobody refl)

two_open-Reached : AreReached two_open
unfolding ticks_program
two_open-Reached =
    later
      (later one_open-Reached
        (calls one_open.ticks (creates one_open.system calm sample_body) refl))
      (opens (order_by_step one_open) calm 1 nobody refl)

abbrev first_batch : List OutboxEntity
first_batch =
    claim_rows sample_sorter (skipped [] nobody) 3000 (order_by_step empty).world.store.outbox

abbrev second_batch : List OutboxEntity
second_batch =
    claim_rows sample_sorter (skipped one_open.ticks nobody) 7000
      (order_by_step one_open).world.store.outbox

batches :
    (batch_of 0 two_open.ticks ≡ some first_batch) × (batch_of 1 two_open.ticks ≡ some second_batch)
unfolding ticks_program
batches = (refl, refl)

held_ids : (ids first_batch ≡ 2 ∷ []) × (ids second_batch ≡ 6 ∷ [])
unfolding ticks_program
held_ids = (refl, refl)

overlapped-IsDue_iff_example :
    ((1 ≤ 1) × (1 ≤ suc (failures two_open.world.store (payment 1))) × (1 ≤ max_retries))
    ↔ Covered two_open.world.store.outbox two_open.world.delivered (payment 1)
unfolding ticks_program
overlapped-IsDue_iff_example = overlapped-IsDue_iff two_open-Reached (payment 1) refl

open_ticks_exclusive_example :
    ((id : ℕ)
      → contains ℕ_discrete id (ids first_batch) ≡ true
      → contains ℕ_discrete id (ids second_batch) ≡ false)
    × All
        (λ row.
          contains ℕ_discrete row.id (ids first_batch) ≡ true
          → (row.processed ≡ false)
            × ((a : Attempt)
                → causes a row ≡ true
                → contains Attempt-discrete a two_open.world.delivered ≡ true))
        two_open.world.store.outbox
open_ticks_exclusive_example =
    open_ticks_exclusive two_open-Reached 0 1 (omega arith) batches.0 batches.1

-- Instance 0 marks its row, and then instance 1.
abbrev first_done : Overlap
first_done = closed 0 two_open (finish_batch first_batch calm two_open.world).1

first_done-Reached : AreReached first_done
first_done-Reached = later two_open-Reached (finishes two_open calm 0 first_batch batches.0)

second_batch_left : batch_of 1 first_done.ticks ≡ some second_batch
unfolding ticks_program
second_batch_left = refl

first_row :
    (row : OutboxEntity) × (row_of 2 first_done.world.store.outbox ≡ some row)
    × (row.processed ≡ true)
unfolding ticks_program
first_row = (_, refl, refl)

processed_is_final_example :
    row_of 2
      (closed 1 first_done (finish_batch second_batch calm first_done.world).1).world.store.outbox
    ≡ some first_row.0
processed_is_final_example =
    processed_is_final first_done-Reached
      (finishes first_done calm 1 second_batch second_batch_left) 2 first_row.0 first_row.1
      first_row.2

overlapped_lifecycle_example :
    Phases.Move
      (phase_of claimed.world.store (pair_of (payment 1)))
      (phase_of failed_once.world.store (pair_of (payment 1)))
unfolding program
overlapped_lifecycle_example =
    overlapped_lifecycle (Reach-Reached claimed-Reached)
      (calls [] (fails claimed calm (payment 1) (codes "down") refl) refl) (pair_of (payment 1))
