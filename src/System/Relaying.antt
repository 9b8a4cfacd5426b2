-- ===== src/System/Relaying.antt =====
-- The attempts that the relay emits and marks, and those of a new order.
use order_outbox_lab.Common.{
  ℕ, Bool, Bool-cases, ◌≡◌, subst, true, List, [], ◌∷◌, ◌++◌, inl, inr, contains, contains-append,
  arith, All, All-append, All-take, All-keep, All-perm, All-contains, ℕ_discrete,
}
use order_outbox_lab.Database.{OutboxEntity, Store}
use order_outbox_lab.Database.Query.{Sorter}
use order_outbox_lab.Frames.{Attempt, Attempt-discrete}
use order_outbox_lab.Outbox.{claim_rows, claimable, claimed_before, mark_rows}
use order_outbox_lab.Outbox.Relay.{emissions, intended, emit-intended}
use order_outbox_lab.System.Facts.{Inv, IsDue, RowsDue}

-- A change of orders, outbox and deliveries alone keeps the facts, if what is new is due.
pub Inv-outbox :
    {s s' : Store} {delivered delivered' running : List Attempt}
    → Inv s delivered running
    → s'.stage_events ≡ s.stage_events
    → s'.stage_retries ≡ s.stage_retries
    → RowsDue s s'.outbox
    → ((a : Attempt) → contains Attempt-discrete a delivered' ≡ true → IsDue s a)
    → Inv s' delivered' running
Inv-outbox {s} {s'} {delivered'} {running} inv same_events same_retries rows due =
    subst (λ x. Inv x delivered' running) mixed
      (record {
        started_due = inv.started_due;
        failed_counted = inv.failed_counted;
        completed_last = inv.completed_last;
        counted_logged = inv.counted_logged;
        capped = inv.capped;
        dead = inv.dead;
        in_progress = λ a h.
            let r = inv.in_progress a h in
            record { next = r.next; within = r.within; started = r.started; open_end = r.open_end };
        delivered_due = due;
        rows_due = rows;
        unique_events = inv.unique_events;
        unique_pairs = inv.unique_pairs;
      })
  where
    mixed : record s { orders = s'.orders; outbox = s'.outbox } ≡ s'
    mixed = ground arith

module _ (s : Store) where
  pub RowsDue-mark_rows :
      (ids : List ℕ) (at now : ℕ) (rows : List OutboxEntity)
      → RowsDue s rows
      → RowsDue s (mark_rows ids at now rows)
  unfolding mark_rows
  RowsDue-mark_rows ids at now [] h = tt
  RowsDue-mark_rows ids at now (row ∷ rows) (h, hs) =
      elim (Bool-cases (contains ℕ_discrete row.id ids)) [
        | inl hit ↦ rw hit (h, RowsDue-mark_rows ids at now rows hs)
        | inr miss ↦ rw miss (h, RowsDue-mark_rows ids at now rows hs)
      ]

  emissions-IsDue : (rows : List OutboxEntity) → RowsDue s rows → All (IsDue s) (emissions rows)
  unfolding emissions
  emissions-IsDue [] h = tt
  emissions-IsDue (row ∷ rows) (h, hs) = rw (emit-intended row.stage row.payload) (
      All-append (IsDue s) (intended row.stage row.payload) (emissions rows) h
        (emissions-IsDue rows hs))

  pub emitted-IsDue :
      (rows : List OutboxEntity) (delivered : List Attempt)
      → RowsDue s rows
      → ((a : Attempt) → contains Attempt-discrete a delivered ≡ true → IsDue s a)
      → (a : Attempt) → contains Attempt-discrete a (emissions rows ++ delivered) ≡ true
      → IsDue s a
  emitted-IsDue rows delivered h due a c =
      elim (contains-append Attempt-discrete a (emissions rows) _ c) [
        | inl now ↦
            All-contains (IsDue s) Attempt-discrete a (emissions rows) (emissions-IsDue rows h) now
        | inr before ↦ due a before
      ]

  pub RowsDue-claim_rows :
      (sorter : Sorter) (locked : ℕ → Bool) (now : ℕ) (rows : List OutboxEntity)
      → RowsDue s rows
      → RowsDue s (claim_rows sorter locked now rows)
  unfolding claim_rows
  RowsDue-claim_rows sorter locked now rows h =
      All-take _ _ _
        (All-perm _ (sorter.same_rows claimed_before _) (All-keep _ (claimable now locked) rows h))
