-- ===== src/System/Overlap/Owing.antt =====
-- The facts, and what the outbox owes, over the two parts of a tick.
use order_outbox_lab.Common.{
  ℕ, ◌≡◌, refl, ◌⊎◌, inl, inr, Bool-cases, true, List, [], ◌∷◌, ◌++◌, some, contains, arith,
  ℕ_discrete, All,
}
use order_outbox_lab.Database.{OutboxEntity}
use order_outbox_lab.Frames.{Attempt, Attempt-discrete}
use order_outbox_lab.Effects.{World}
use order_outbox_lab.Outbox.{mark_rows}
use order_outbox_lab.Outbox.Relay.{emissions}
use order_outbox_lab.Outbox.Relay.Delivery.{ids, marked}
use order_outbox_lab.Outbox.Relay.Halves.{Finished}
use order_outbox_lab.System.Facts.{Inv, RowsDue}
use order_outbox_lab.System.Relaying.{Inv-outbox, RowsDue-mark_rows, emitted-IsDue}
use order_outbox_lab.System.Owed.{queued, Owed}
use order_outbox_lab.System.Owed.Marking.{UniqueRows-mark_rows}
use order_outbox_lab.System.Owed.Steps.{Carried, Owed-Carried, emitted-Carried}
use order_outbox_lab.System.Overlap.{OpenTick, batch_of}
use order_outbox_lab.System.Overlap.Batches.{IsSent, Batches, holds-batch_of}

-- The facts and the debts of a world.
abbrev pub Fine : World → List Attempt → Type 0
Fine w running = Inv w.store w.delivered running × Owed w.store w.delivered

module _ (w : World) (running : List Attempt) (f : Fine w running) where
  pub same-Fine : (u : World) → u.store ≡ w.store → u.delivered ≡ w.delivered → Fine u running
  same-Fine u e d = rw (e, d) f

  pub Emitted-Fine :
      (rows : List OutboxEntity) (u : World)
      → RowsDue w.store rows
      → u.store ≡ w.store
      → u.delivered ≡ emissions rows ++ w.delivered
      → Fine u running
  Emitted-Fine rows u due e d =
      rw (e, d)
        (
          Inv-outbox f.0 refl refl f.0.rows_due
              (emitted-IsDue w.store rows w.delivered due f.0.delivered_due),
          Owed-Carried (emitted-Carried w.store w.store rows w.delivered refl) f.1,
        )

-- A row that is marked was sent, so it is owed no more.
queued-sent :
    (a : Attempt) (ticks : List OpenTick) (delivered : List Attempt) (i : ℕ)
    (batch : List OutboxEntity) (at now : ℕ) (rows : List OutboxEntity)
    → batch_of i ticks ≡ some batch
    → All (IsSent ticks delivered) rows
    → queued a rows ≡ true
    → (queued a (mark_rows (ids batch) at now rows) ≡ true)
      ⊎ (contains Attempt-discrete a delivered ≡ true)
unfolding queued mark_rows
queued-sent a ticks delivered i batch at now [] e h q = cc
queued-sent a ticks delivered i batch at now (row ∷ rows) e (h, hs) q =
    elim (Bool-cases (contains ℕ_discrete row.id (ids batch))) [
      | inl hit ↦
          let (open_row, made) = h (holds-batch_of i row.id ticks e hit) in
          ground (arith, made a, queued-sent a ticks delivered i batch at now rows e hs)
      | inr miss ↦ ground (arith, queued-sent a ticks delivered i batch at now rows e hs)
    ]

module _ (w : World) (running : List Attempt) (f : Fine w running) (ticks : List OpenTick) (i : ℕ)
    (batch : List OutboxEntity) (e : batch_of i ticks ≡ some batch)
    (b : Batches w.store.outbox w.delivered ticks) where
  marked-Carried :
      (at now : ℕ) → Carried w.store (marked batch at now w.store) w.delivered w.delivered
  marked-Carried at now = record {
    same_orders = λ id. refl;
    same_retries = refl;
    still_unique = UniqueRows-mark_rows (ids batch) at now w.store.outbox;
    still_covered = λ u a c. elim c [
      | inl q ↦ queued-sent a ticks w.delivered i batch at now w.store.outbox e b.sent q
      | inr d ↦ inr d
    ];
  }

  pub Finished-Fine : (u : World) → Finished batch w u → Fine u running
  Finished-Fine u (inl same, d) = rw (same, d) f
  Finished-Fine u (inr (at, now, m), d) =
      rw (m, d)
        (
          Inv-outbox f.0 refl refl
              (RowsDue-mark_rows w.store (ids batch) at now w.store.outbox f.0.rows_due)
              f.0.delivered_due,
          Owed-Carried (marked-Carried at now) f.1,
        )
