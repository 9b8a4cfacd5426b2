-- ===== src/System/Overlap/Moving.antt =====
-- The lifecycle of a stage, and the statuses of orders, where ticks overlap.
use order_outbox_lab.Common.{◌≡◌, refl, ap, inl, inr, List, ℕ}
use order_outbox_lab.Database.{OutboxEntity, RetryKey}
use order_outbox_lab.Database.Query.{Sorter}
use order_outbox_lab.Effects.{World, Result, ok, err}
use order_outbox_lab.Orders.Validation.{JsNumber}
use order_outbox_lab.Outbox.Relay.Halves.{
  emit_batch, finish_batch, emit_batch-Emitted, finish_batch-Finished, Finished,
}
use order_outbox_lab.System.Changes.{Change, unchanged, Step-Change}
use order_outbox_lab.System.Overlap.{
  Overlap, skipped, opened, Move, calls, opens, finishes, aborts, Reached,
}
use order_outbox_lab.System.Overlap.Safety.{Reached-Holds}
use order_outbox_lab.System.Phases
use order_outbox_lab.System.Phases.{phase_of}
use order_outbox_lab.System.Phases.Moves.{Change-Move}

opened-Change :
    (i : ℕ) (o : Overlap) (r : Result (List OutboxEntity) × World)
    → r.1.store ≡ o.world.store
    → Change o.world.store (opened i o r).world.store o.running
opened-Change i o (ok rows, u) e =
    unchanged (ap (λ s. s.stage_events) e) (ap (λ s. s.stage_retries) e)
opened-Change i o (err x, u) e =
    unchanged (ap (λ s. s.stage_events) e) (ap (λ s. s.stage_retries) e)

finished-Change :
    (o : Overlap) (rows : List OutboxEntity) (u : World)
    → Finished rows o.world u
    → Change o.world.store u.store o.running
finished-Change o rows u (inl e, _) =
    unchanged (ap (λ s. s.stage_events) e) (ap (λ s. s.stage_retries) e)
finished-Change o rows u (inr (at, now, e), _) =
    unchanged (ap (λ s. s.stage_events) e) (ap (λ s. s.stage_retries) e)

module _ {sorter : Sorter} {js : JsNumber} where
  Move-Change :
      {o o' : Overlap}
      → Reached sorter js o
      → Move sorter js o o'
      → Change o.world.store o'.world.store o.running
  Move-Change r (calls ticks st no_tick) = Step-Change st (Reached-Holds r)
  Move-Change r (opens o env i locked idle) =
      opened-Change i o (emit_batch sorter (skipped o.ticks locked) env o.world)
        (emit_batch-Emitted sorter (skipped o.ticks locked) env o.world).0
  Move-Change r (finishes o env i rows e) =
      finished-Change o rows (finish_batch rows env o.world).1
        (finish_batch-Finished rows env o.world)
  Move-Change r (aborts o i) = unchanged refl refl

  -- From a state that overlapping ticks reach, whatever fails in a move and however the instances
  -- interleave, each stage of each order stays in its phase or makes one move of the lifecycle: the
  -- attempt that waits is claimed; the active attempt completes; the active attempt fails and the next
  -- one waits, within `MAX_RETRIES`; or the attempt `MAX_RETRIES` fails and the stage is dead-lettered.
  pub overlapped_lifecycle :
      {o o' : Overlap}
      → Reached sorter js o
      → Move sorter js o o'
      → (k : RetryKey) → Phases.Move (phase_of o.world.store k) (phase_of o'.world.store k)
  overlapped_lifecycle {o'} r m k = Change-Move (Reached-Holds r) o'.world.store k (Move-Change r m)
