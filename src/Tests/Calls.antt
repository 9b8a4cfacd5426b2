-- ===== src/Tests/Calls.antt =====
-- The theorems on single calls, at the states of the sample history.
use order_outbox_lab.Common.{
  ℕ, ◌≡◌, ◌↔◌, ◌⊎◌, refl, true, false, ◌∷◌, some, codes, if◌then◌else◌, ◌==◌, arith,
}
use order_outbox_lab.Pipeline.{StageName, StageStatus}
use order_outbox_lab.Effects.{Outcome, Env, World, Error, ok, err}
use order_outbox_lab.Orders.Validation.{CreateOrderInput, parse_create_order}
use order_outbox_lab.Orders.{create}
use order_outbox_lab.Orders.Creation.{Creates, create-Creates}
use order_outbox_lab.Outbox.{claim_rows}
use order_outbox_lab.Outbox.Relay.{claim_and_emit}
use order_outbox_lab.Outbox.Relay.Delivery.{Relayed, Resolves, claim_and_emit-Relayed}
use order_outbox_lab.Stages.{RetryDecision, Roll}
use order_outbox_lab.Stages.Runner.{frame_of, fail}
use order_outbox_lab.Stages.Runner.Outcomes.{FailureRecorded, fail-store}
use order_outbox_lab.Stages.Runner.Frames.{fail-frames}
use order_outbox_lab.Status.{all_completed, has_dead_letter, recompute}
use order_outbox_lab.Status.Settling.{Kept, status_of, decide_status, recompute-decides}
use order_outbox_lab.Status.Deciding.{CompletedIn, DeadIn, all_completed_iff, has_dead_letter_iff}
use order_outbox_lab.StageEvents.{watch}
use order_outbox_lab.StageEvents.Streams.{watch-quiet}
use order_outbox_lab.System.{empty_world}
use order_outbox_lab.System.{initial}
use order_outbox_lab.Common.{All, contains, ℕ_discrete}
use order_outbox_lab.Outbox.{claimable, claimed_before, outbox_batch_size}
use order_outbox_lab.Outbox.Claiming.{row_ids, with_held, claim_rows-Page}
use order_outbox_lab.Queries.Pages.{Page}
use order_outbox_lab.Samples.Sorting.{sample_sorter}
use order_outbox_lab.Samples.Numbers.{sample_js}
use order_outbox_lab.Samples.History.{
  calm, sample_body, payment, after_create, claimed, failed_once, all_done, program, dead,
}

abbrev half : Roll
half = record { num = 1; den = 2; below_one = omega arith }

-- Every call after the first is rejected.
abbrev flaky : Env
flaky = record calm {
  outcome = λ n. if n == claimed.world.calls then Outcome.done else Outcome.rejected;
}

create-Creates_example :
    ((input : CreateOrderInput)
      → parse_create_order sample_js sample_body ≡ ok input
      → Creates input empty_world (create sample_js sample_body calm empty_world))
    × ((e : Error)
        → parse_create_order sample_js sample_body ≡ err e
        → create sample_js sample_body calm empty_world ≡ (err e, empty_world))
create-Creates_example = create-Creates sample_js sample_body calm empty_world

abbrev opened : World
opened = (after_create initial).world

claim_and_emit-Relayed_example :
    let rows =
      claim_rows sample_sorter (λ id. false) (calm.stamp opened.calls).now opened.store.outbox in
    let r = claim_and_emit sample_sorter (λ id. false) calm opened in
    Relayed rows opened.store opened.delivered r.1 × Resolves rows opened.store opened.delivered r
claim_and_emit-Relayed_example = claim_and_emit-Relayed sample_sorter (λ id. false) calm opened

fail-store_example :
    let (r, u) = fail (payment 1) (codes "down") calm claimed.world in
    ((u.store ≡ claimed.world.store)
      ⊎ ((d : RetryDecision) × FailureRecorded
            (payment 1)
            (codes "down")
            d
            claimed.world.store
            u.store))
    × ((d : RetryDecision)
        → r ≡ ok d
        → FailureRecorded (payment 1) (codes "down") d claimed.world.store u.store)
    × (u.delivered ≡ claimed.world.delivered)
fail-store_example = fail-store (payment 1) (codes "down") calm claimed.world

fail-frames_example :
    let u = (fail (payment 1) (codes "down") calm claimed.world).1 in
    (u.published ≡ claimed.world.published)
    ⊎ ((d : RetryDecision) × (now : ℕ) × (u.published
          ≡ frame_of (payment 1) StageStatus.failed (some (codes "down")) now
            ∷ claimed.world.published)
        × FailureRecorded (payment 1) (codes "down") d claimed.world.store u.store)
fail-frames_example = fail-frames (payment 1) (codes "down") calm claimed.world

recompute-decides_example : status_of 1 (recompute 1 calm all_done.world).1.store.orders ≡ (
    if 1 == 1
    then decide_status
        (all_completed 1 all_done.world.store.stage_events)
        (has_dead_letter 1 all_done.world.store.stage_retries)
        (status_of 1 all_done.world.store.orders)
    else status_of 1 all_done.world.store.orders)
recompute-decides_example = recompute-decides 1 1 calm all_done.world refl refl

all_completed_iff_example :
    (all_completed 1 all_done.world.store.stage_events ≡ true)
    ↔ ((stage : StageName) → CompletedIn all_done.world.store.stage_events 1 stage)
all_completed_iff_example = all_completed_iff 1 all_done.world.store.stage_events

has_dead_letter_iff_example :
    (has_dead_letter 1 dead.world.store.stage_retries ≡ true)
    ↔ DeadIn dead.world.store.stage_retries 1
unfolding program
has_dead_letter_iff_example = has_dead_letter_iff 1 dead.world.store.stage_retries (refl, tt)

watch-quiet_example :
    ((watch failed_once.world.published calm failed_once.world).0 ≡ ok tt)
    × Kept failed_once.world (watch failed_once.world.published calm failed_once.world).1
watch-quiet_example = watch-quiet failed_once.world.published calm failed_once.world

claim_rows-Page_example :
    let rows = failed_once.world.store.outbox in
    let batch = claim_rows sample_sorter (λ id. false) 100000 rows in
    let other = claim_rows sample_sorter (with_held (row_ids batch) (λ id. false)) 200000 rows in
    Page (claimable 100000 (λ id. false)) claimed_before outbox_batch_size rows batch
    × All (λ row. contains ℕ_discrete row.id (row_ids batch) ≡ false) other
claim_rows-Page_example =
    claim_rows-Page sample_sorter (λ id. false) 100000 200000 failed_once.world.store.outbox
