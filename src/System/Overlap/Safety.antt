-- ===== src/System/Overlap/Safety.antt =====
-- What holds in every state that overlapping ticks can reach.
use order_outbox_lab.Common.{ℕ, ◌≡◌, inl, inr, Bool, List, some}
use order_outbox_lab.Database.{OutboxEntity}
use order_outbox_lab.Database.Query.{Sorter}
use order_outbox_lab.Effects.{World, Result, ok, err}
use order_outbox_lab.Orders.Validation.{JsNumber}
use order_outbox_lab.Outbox.{claim_rows}
use order_outbox_lab.Outbox.Relay.Halves.{
  emit_batch, finish_batch, Emitted, Finished, emit_batch-Emitted, finish_batch-Finished,
}
use order_outbox_lab.System.Invariant.{Holds, initial-Holds, Step-Holds}
use order_outbox_lab.System.Owed.Kept.{Step-Owes, initial-Owes}
use order_outbox_lab.System.Relaying.{RowsDue-claim_rows}
use order_outbox_lab.System.Overlap.{
  Overlap, batch_of, holds, skipped, opened, closed, empty, Move, calls, opens, finishes, aborts,
  Reached, start, later,
}
use order_outbox_lab.System.Overlap.Rows.{Step-Grown}
use order_outbox_lab.System.Overlap.Batches.{Batches}
use order_outbox_lab.System.Overlap.Kept.{
  Batches-Grown, Batches-without_tick, Batches-marked, Batches-opened,
}
use order_outbox_lab.System.Overlap.Owing.{Fine, same-Fine, Emitted-Fine, Finished-Fine}

abbrev pub Sound : Overlap → Type 0
Sound o = Fine o.world o.running × Batches o.world.store.outbox o.world.delivered o.ticks

empty-Sound : Sound empty
unfolding holds
empty-Sound =
    ((initial-Holds, initial-Owes), record { present = λ id h. cc; sent = tt; apart = tt })

module _ (sorter : Sorter) (o : Overlap) (i : ℕ) (locked : ℕ → Bool) (now : ℕ) where
  abbrev batch : List OutboxEntity
  batch = claim_rows sorter (skipped o.ticks locked) now o.world.store.outbox

  opened-Sound :
      (r : Result (List OutboxEntity) × World)
      → Emitted batch o.world r
      → Sound o
      → Sound (opened i o r)
  opened-Sound (ok rows, u) (e, inl (got, d)) (f, b) =
      let same : rows ≡ batch = cc got in
      rw same (
        Emitted-Fine o.world o.running f batch u
            (RowsDue-claim_rows o.world.store sorter (skipped o.ticks locked) now
              o.world.store.outbox f.0.rows_due)
            e d,
        rw (e, d)
            (Batches-opened sorter locked now i o.world.store.outbox o.ticks f.1.unique_rows b),
      )
  opened-Sound (err x, u) (e, inr (y, _, d)) (f, b) =
      (same-Fine o.world o.running f u e d, rw (e, d) b)
  opened-Sound (ok rows, u) (e, inr (y, wrong, d)) (f, b) = cc
  opened-Sound (err x, u) (e, inl (wrong, d)) (f, b) = cc

closed-Sound :
    (o : Overlap) (i : ℕ) (batch : List OutboxEntity) (u : World)
    → batch_of i o.ticks ≡ some batch
    → Finished batch o.world u
    → Sound o
    → Sound (closed i o u)
closed-Sound o i batch u e (inl same, d) (f, b) =
    (same-Fine o.world o.running f u same d, rw (same, d) (Batches-without_tick b i))
closed-Sound o i batch u e (inr (at, now, m), d) (f, b) = (
  Finished-Fine o.world o.running f o.ticks i batch e b u (inr (at, now, m), d),
  rw (m, d) (Batches-marked b i batch at now e),
)

module _ {sorter : Sorter} {js : JsNumber} where
  Move-Sound : {o o' : Overlap} → Move sorter js o o' → Sound o → Sound o'
  Move-Sound (calls ticks {s} {t} st no_tick) ((h, owes), b) =
      let (grown, d) = Step-Grown st no_tick h in
      ((Step-Holds st h, Step-Owes st h owes), rw d (Batches-Grown b grown))
  Move-Sound (opens o env i locked idle) sound =
      opened-Sound sorter o i locked (env.stamp o.world.calls).now
        (emit_batch sorter (skipped o.ticks locked) env o.world)
        (emit_batch-Emitted sorter (skipped o.ticks locked) env o.world) sound
  Move-Sound (finishes o env i rows e) sound =
      closed-Sound o i rows (finish_batch rows env o.world).1 e
        (finish_batch-Finished rows env o.world) sound
  Move-Sound (aborts o i) (f, b) = (f, Batches-without_tick b i)

  pub Reached-Sound : {o : Overlap} → Reached sorter js o → Sound o
  Reached-Sound start = empty-Sound
  Reached-Sound (later r m) = Move-Sound m (Reached-Sound r)

  pub Reached-Holds : {o : Overlap} → Reached sorter js o → Holds o.system
  Reached-Holds r = (Reached-Sound r).0.0
