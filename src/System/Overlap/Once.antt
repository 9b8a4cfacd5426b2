-- ===== src/System/Overlap/Once.antt =====
-- The rows that are marked as processed.
use order_outbox_lab.Common.{
  ℕ, ◌≡◌, subst, inl, inr, Bool, Bool-cases, true, false, List, [], ◌∷◌, some, contains, arith,
  ℕ_discrete, All, Option, none, ite,
}
use order_outbox_lab.Database.{OutboxEntity}
use order_outbox_lab.Database.Query.{Sorter}
use order_outbox_lab.Effects.{Env, World, Result, ok, err}
use order_outbox_lab.Orders.Validation.{JsNumber}
use order_outbox_lab.Outbox.{has_row, mark_rows}
use order_outbox_lab.Outbox.Relay.Delivery.{ids}
use order_outbox_lab.Outbox.Relay.Halves.{
  emit_batch, finish_batch, emit_batch-Emitted, finish_batch-Finished, Finished,
}
use order_outbox_lab.System.Overlap.{
  Overlap, batch_of, holds, skipped, opened, Move, calls, opens, finishes, aborts, Reached,
}
use order_outbox_lab.System.Overlap.Batches.{IsSent, holds-batch_of}
use order_outbox_lab.System.Overlap.Rows.{Grown, Step-Grown}
use order_outbox_lab.System.Overlap.Safety.{Sound, Reached-Sound}

-- The row of the table with the id.
unfoldable pub row_of : ℕ → List OutboxEntity → Option OutboxEntity
row_of id [] = none
row_of id (row ∷ rows) = ite (ℕ_discrete row.id id) (some row) (row_of id rows)

has_row-row_of :
    (id : ℕ) (rows : List OutboxEntity) {row : OutboxEntity}
    → row_of id rows ≡ some row
    → has_row id rows ≡ true
unfolding row_of has_row
has_row-row_of id [] e = cc
has_row-row_of id (r ∷ rs) {row} e = ground (arith, has_row-row_of id rs {row = row})

row_of-Grown :
    (id : ℕ) (rows rows' : List OutboxEntity) (row : OutboxEntity)
    → Grown rows rows'
    → row_of id rows ≡ some row
    → row_of id rows' ≡ some row
unfolding row_of
row_of-Grown id rows rows' row (inl same) e = rw same e
row_of-Grown id rows rows' row (inr (new, fresh, _, grown)) e =
    let known = has_row-row_of id rows e in rw grown (ground (arith, fresh, known, e))

row_of-id :
    (id : ℕ) (rows : List OutboxEntity) {row : OutboxEntity}
    → row_of id rows ≡ some row
    → row.id ≡ id
unfolding row_of
row_of-id id [] e = cc
row_of-id id (r ∷ rs) {row} e = ground (arith, row_of-id id rs {row = row})

-- Marking changes no row that is not in the batch.
row_of-mark_rows :
    (id : ℕ) (batch : List ℕ) (at now : ℕ) (rows : List OutboxEntity) {row : OutboxEntity}
    → contains ℕ_discrete id batch ≡ false
    → row_of id rows ≡ some row
    → row_of id (mark_rows batch at now rows) ≡ some row
unfolding row_of mark_rows
row_of-mark_rows id batch at now [] out e = cc
row_of-mark_rows id batch at now (r ∷ rs) {row} out e = elim (ℕ_discrete r.id id) [
  | yes p ↦ ground (arith, row_of-mark_rows id batch at now rs {row = row} out)
  | no n ↦ ground (arith, row_of-mark_rows id batch at now rs {row = row} out)
]

row_of-All :
    (P : OutboxEntity → Type 0) (id : ℕ) (rows : List OutboxEntity) {row : OutboxEntity}
    → All P rows
    → row_of id rows ≡ some row
    → P row
unfolding row_of
row_of-All P id [] h e = cc
row_of-All P id (r ∷ rs) (h, hs) e = elim (ℕ_discrete r.id id) [
  | yes p ↦ subst P (ground arith) h
  | no n ↦ row_of-All P id rs hs (ground arith)
]

-- A row that a tick holds is unprocessed, so the marks of the tick change no processed row.
processed-out :
    (o : Overlap) (i id : ℕ) (batch : List OutboxEntity) {row : OutboxEntity}
    → Sound o
    → batch_of i o.ticks ≡ some batch
    → row_of id o.world.store.outbox ≡ some row
    → row.processed ≡ true
    → contains ℕ_discrete id (ids batch) ≡ false
processed-out o i id batch {row} (_, b) e h p =
    elim (Bool-cases (contains ℕ_discrete id (ids batch))) [
      | inr miss ↦ miss
      | inl hit ↦
          let same = row_of-id id o.world.store.outbox {row = row} h in
          let held : holds o.ticks row.id ≡ true =
            rw same (holds-batch_of i id o.ticks {rows = batch} e hit) in
          let sent =
            row_of-All (IsSent o.ticks o.world.delivered) id o.world.store.outbox b.sent h in
          absurd (ground (arith, (sent held).0, p))
    ]

closed-row :
    (o : Overlap) (i id : ℕ) (batch : List OutboxEntity) (u : World) (row : OutboxEntity)
    → Sound o
    → batch_of i o.ticks ≡ some batch
    → Finished batch o.world u
    → row_of id o.world.store.outbox ≡ some row
    → row.processed ≡ true
    → row_of id u.store.outbox ≡ some row
closed-row o i id batch u row sound e (inl same, _) h p = rw same h
closed-row o i id batch u row sound e (inr (at, now, m), _) h p = rw m (
    row_of-mark_rows id (ids batch) at now o.world.store.outbox {row = row}
      (processed-out o i id batch {row = row} sound e h p) h)

opened-row :
    (sorter : Sorter) (locked : ℕ → Bool) (env : Env) (i id : ℕ) (o : Overlap) (row : OutboxEntity)
    → row_of id o.world.store.outbox ≡ some row
    → row_of id
        (opened i o (emit_batch sorter (skipped o.ticks locked) env o.world)).world.store.outbox
      ≡ some row
opened-row sorter locked env i id o row h =
    let (e, _) = emit_batch-Emitted sorter (skipped o.ticks locked) env o.world in
    opened_store (emit_batch sorter (skipped o.ticks locked) env o.world) e
  where
    opened_store :
        (r : Result (List OutboxEntity) × World)
        → r.1.store ≡ o.world.store
        → row_of id (opened i o r).world.store.outbox ≡ some row
    opened_store (ok rows, u) e = rw e h
    opened_store (err x, u) e = rw e h

module _ {sorter : Sorter} {js : JsNumber} where
  -- From a state that overlapping ticks reach, no move changes a row of the outbox that is marked as
  -- processed, so a row is marked by one tick at most and keeps the `processed_at` of that tick.
  pub processed_is_final :
      {o o' : Overlap}
      → Reached sorter js o
      → Move sorter js o o'
      → (id : ℕ) (row : OutboxEntity) → row_of id o.world.store.outbox ≡ some row
      → row.processed ≡ true
      → row_of id o'.world.store.outbox ≡ some row
  processed_is_final r (calls ticks {s} {t} st no_tick) id row h p =
      let ((facts, _), _) = Reached-Sound r in
      row_of-Grown id s.world.store.outbox t.world.store.outbox row (Step-Grown st no_tick facts).0
        h
  processed_is_final r (opens o env i locked idle) id row h p =
      opened-row sorter locked env i id o row h
  processed_is_final r (finishes o env i rows e) id row h p =
      closed-row o i id rows (finish_batch rows env o.world).1 row (Reached-Sound r) e
        (finish_batch-Finished rows env o.world) h p
  processed_is_final r (aborts o i) id row h p = h
