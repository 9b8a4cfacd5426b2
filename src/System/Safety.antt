-- ===== src/System/Safety.antt =====
-- What holds of the pipeline in every state that it can reach, whatever fails, however the
-- instances interleave, and with the transactions of ticks overlapping.
use Prim.Native.Nat.{suc}
use order_outbox_lab.Common.{ℕ, ◌≡◌, ◌≤◌, ◌↔◌, inl, inr, true, false, Bool-cases, contains, arith}
use order_outbox_lab.Pipeline.{StageStatus}
use order_outbox_lab.Database.Query.{Sorter}
use order_outbox_lab.Frames.{Attempt, Attempt-discrete}
use order_outbox_lab.Orders.Validation.{JsNumber}
use order_outbox_lab.Stages.{max_retries}
use order_outbox_lab.Stages.Statements.Counters.{retry_dead}
use order_outbox_lab.Stages.Runner.{pair_of}
use order_outbox_lab.Status.{all_completed, has_dead_letter}
use order_outbox_lab.Status.Deciding.{all_completed_iff, has_dead_letter_iff}
use order_outbox_lab.System.Overlap.{Overlap, Reached}
use order_outbox_lab.System.Facts.{logged, failures}
use order_outbox_lab.System.Overlap.Safety.{Reached-Holds}

module _ {sorter : Sorter} {js : JsNumber} {o : Overlap} (r : Reached sorter js o) where
  -- In every state that overlapping ticks reach, an attempt of a stage that was started has a
  -- number from 1 to MAX_RETRIES, however often rows are delivered again and whatever fails.
  pub attempts_bounded :
      (a : Attempt)
      → logged o.world.store a StageStatus.started ≡ true
      → (1 ≤ a.attempt) × (a.attempt ≤ max_retries)
  attempts_bounded a h = ground (arith, (Reached-Holds r).started_due a)

  -- In every state that overlapping ticks reach, the attempts of an (order, stage) with a
  -- `failed` row are exactly those from 1 to the retry counter of the pair.
  pub failures_counted :
      (a : Attempt)
      → (logged o.world.store a StageStatus.failed ≡ true)
        ↔ ((1 ≤ a.attempt) × (a.attempt ≤ failures o.world.store a))
  failures_counted a =
      ((Reached-Holds r).failed_counted a, (λ h. ((Reached-Holds r).counted_logged a h.0 h.1).1))

  -- In every state that overlapping ticks reach, a stage that completed an attempt started no
  -- later attempt, has no failure of that attempt and no other completed attempt, and is not
  -- dead-lettered.
  pub completed_is_final :
      (a b : Attempt)
      → logged o.world.store a StageStatus.completed ≡ true
      → pair_of a ≡ pair_of b
      → (logged o.world.store a StageStatus.failed ≡ false)
        × (logged o.world.store b StageStatus.started ≡ true → b.attempt ≤ a.attempt)
        × (logged o.world.store b StageStatus.completed ≡ true → a ≡ b)
        × (retry_dead (pair_of a) o.world.store.stage_retries ≡ false)
  completed_is_final a b h p = ground (
    arith,
    (Reached-Holds r).completed_last a h,
    (Reached-Holds r).completed_last b,
    (Reached-Holds r).started_due b,
    (Reached-Holds r).failed_counted a,
    (Reached-Holds r).dead (pair_of a),
  )

  -- In every state that overlapping ticks reach, a pair is dead-lettered exactly when its attempt
  -- number MAX_RETRIES has a `failed` row.
  pub dead_letter_iff :
      (a : Attempt)
      → a.attempt ≡ max_retries
      → (retry_dead (pair_of a) o.world.store.stage_retries ≡ true)
        ↔ (logged o.world.store a StageStatus.failed ≡ true)
  dead_letter_iff a e = (
    (λ h. ground (arith, (Reached-Holds r).dead (pair_of a), (Reached-Holds r).counted_logged a)),
    (λ h. ground (arith, (Reached-Holds r).dead (pair_of a), (Reached-Holds r).failed_counted a)),
  )

  -- In every state that overlapping ticks reach, two attempts in progress for one (order, stage)
  -- are the same attempt, and it is the next after the failures counted.
  pub one_in_progress :
      (a b : Attempt)
      → contains Attempt-discrete a o.running ≡ true
      → contains Attempt-discrete b o.running ≡ true
      → pair_of a ≡ pair_of b
      → (a ≡ b) × (a.attempt ≡ suc (failures o.world.store a))
  one_in_progress a b h k p =
      ground (arith, (Reached-Holds r).in_progress a h, (Reached-Holds r).in_progress b k)

  -- In no state that overlapping ticks reach do the conditions of the two status UPDATEs both
  -- hold.
  pub conditions_exclusive :
      (id : ℕ)
      → all_completed id o.world.store.stage_events ≡ true
      → has_dead_letter id o.world.store.stage_retries ≡ false
  conditions_exclusive id h = elim (Bool-cases (has_dead_letter id o.world.store.stage_retries)) [
    | inr alive ↦ alive
    | inl dead ↦
        let (stage, q) =
          (has_dead_letter_iff id o.world.store.stage_retries (Reached-Holds r).unique_pairs).0
            dead in
        let (n, done) = (all_completed_iff id o.world.store.stage_events).0 h stage in
        let a : Attempt = record { order_id = id; stage = stage; attempt = n } in
        ground
          (arith, q, done, (Reached-Holds r).completed_last a, (Reached-Holds r).dead (pair_of a))
  ]
