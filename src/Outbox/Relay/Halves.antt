-- ===== src/Outbox/Relay/Halves.antt =====
-- The transaction of a tick in two parts, between which other transactions may commit: the SELECT
-- with the emits, and the UPDATE with the COMMIT.
use order_outbox_lab.Common.{
  ℕ, suc, Bool, ◌≡◌, refl, List, [], ◌∷◌, ◌++◌, ◌⊎◌, inl, inr, length, some,
}
use order_outbox_lab.Database.{OutboxEntity}
use order_outbox_lab.Database.Query.{Sorter}
use order_outbox_lab.Effects.{
  Outcome, Env, World, Error, Result, ok, err, M, ◌>>=◌, ◌>>◌, pure, query, transaction, date_now,
  emit_all, then_run, end_transaction, settle, tick, commit,
}
use order_outbox_lab.Outbox.{select_claimable, claim_rows, mark_processed}
use order_outbox_lab.Outbox.Relay.{emissions, emit_and_mark, claim_body, claim_and_emit}
use order_outbox_lab.Outbox.Relay.Delivery.{ids, marked}

-- The rows stay locked until the transaction ends.
unfoldable pub emit_batch : Sorter → (ℕ → Bool) → M (List OutboxEntity)
emit_batch sorter locked = do
  rows ← query (select_claimable sorter locked)
  emit_all (emissions rows)
  pure rows

abbrev pub mark_batch : List OutboxEntity → M ℕ
mark_batch [] = pure 0
mark_batch (row ∷ rows) = do
  at ← date_now
  query (mark_processed (ids (row ∷ rows)) at)
  pure (length (row ∷ rows))

-- A statement that fails rolls the marks back; what other transactions committed before stays.
unfoldable pub finish_batch : List OutboxEntity → M ℕ
finish_batch rows = transaction (mark_batch rows)

emit_and_mark-halves :
    (rows : List OutboxEntity) (env : Env) (v : World)
    → end_transaction env v.store (emit_and_mark rows env v)
      ≡ then_run env finish_batch ((emit_all (emissions rows) >> pure rows) env v)
unfolding emit_all finish_batch transaction emissions
emit_and_mark-halves [] env v = refl
emit_and_mark-halves (row ∷ rows) env v = refl

select-halves :
    (o : Outcome) (rows : List OutboxEntity) (env : Env) (w : World)
    → let r = settle o (tick w) (some (rows, w.store)) in
      end_transaction env w.store (then_run env emit_and_mark r)
      ≡ then_run env finish_batch
          (then_run env (λ (batch : List OutboxEntity). emit_all (emissions batch) >> pure batch) r)
select-halves Outcome.done rows env w = emit_and_mark-halves rows env (tick w)
select-halves Outcome.rejected rows env w = refl
select-halves Outcome.lost rows env w = refl

-- A tick that nothing comes between is its two parts, one after the other, under any environment.
pub claim_and_emit-halves :
    (sorter : Sorter) (locked : ℕ → Bool) (env : Env) (w : World)
    → claim_and_emit sorter locked env w ≡ (emit_batch sorter locked >>= finish_batch) env w
unfolding claim_and_emit transaction claim_body emit_batch query select_claimable
claim_and_emit-halves sorter locked env w =
    select-halves (env.outcome w.calls)
      (claim_rows sorter locked (env.stamp w.calls).now w.store.outbox) env w

-- What the first part does: the store stays, and the batch is emitted or nothing is.
abbrev pub Emitted : List OutboxEntity → World → Result (List OutboxEntity) × World → Type 0
Emitted rows w (r, u) =
    (u.store ≡ w.store)
    × (((r ≡ ok rows) × (u.delivered ≡ emissions rows ++ w.delivered))
        ⊎ ((e : Error) × (r ≡ err e) × (u.delivered ≡ w.delivered)))

settle-Emitted :
    (o : Outcome) (rows : List OutboxEntity) (env : Env) (w : World)
    → let r = settle o (tick w) (some (rows, w.store)) in
      Emitted rows w
        (then_run env (λ (batch : List OutboxEntity). emit_all (emissions batch) >> pure batch) r)
unfolding emit_all
settle-Emitted Outcome.done rows env w = (refl, inl (refl, refl))
settle-Emitted Outcome.rejected rows env w = (refl, inr (Error.unavailable, refl, refl))
settle-Emitted Outcome.lost rows env w = (refl, inr (Error.unavailable, refl, refl))

pub emit_batch-Emitted :
    (sorter : Sorter) (locked : ℕ → Bool) (env : Env) (w : World)
    → Emitted
        (claim_rows sorter locked (env.stamp w.calls).now w.store.outbox)
        w
        (emit_batch sorter locked env w)
unfolding emit_batch query select_claimable
emit_batch-Emitted sorter locked env w =
    settle-Emitted (env.outcome w.calls)
      (claim_rows sorter locked (env.stamp w.calls).now w.store.outbox) env w

-- What the second part does: it marks the rows of the batch or leaves the store.
abbrev pub Finished : List OutboxEntity → World → World → Type 0
Finished rows w u =
    ((u.store ≡ w.store) ⊎ ((at : ℕ) × (now : ℕ) × (u.store ≡ marked rows at now w.store)))
    × (u.delivered ≡ w.delivered)

commit-Finished :
    (o : Outcome) (rows : List OutboxEntity) (at now n : ℕ) (w v : World)
    → v.store ≡ marked rows at now w.store
    → v.delivered ≡ w.delivered
    → Finished rows w (commit o w.store n v).1
commit-Finished Outcome.done rows at now n w v e d = (inr (at, now, e), d)
commit-Finished Outcome.rejected rows at now n w v e d = (inl refl, d)
commit-Finished Outcome.lost rows at now n w v e d = (inr (at, now, e), d)

commit-kept : (o : Outcome) (w : World) → Finished [] w (commit {A = ℕ} o w.store 0 (tick w)).1
commit-kept Outcome.done w = (inl refl, refl)
commit-kept Outcome.rejected w = (inl refl, refl)
commit-kept Outcome.lost w = (inl refl, refl)

mark-Finished :
    (o : Outcome) (rows : List OutboxEntity) (env : Env) (at now : ℕ) (w : World)
    → Finished rows w
        (end_transaction env w.store (
          then_run env
            (λ _. pure (length rows))
            (settle o (tick w) (some (tt, marked rows at now w.store))))).1
mark-Finished Outcome.done rows env at now w =
    commit-Finished (env.outcome (suc w.calls)) rows at now (length rows) w
      (tick (tick (record w { store = marked rows at now w.store }))) refl refl
mark-Finished Outcome.rejected rows env at now w = (inl refl, refl)
mark-Finished Outcome.lost rows env at now w = (inl refl, refl)

pub finish_batch-Finished :
    (rows : List OutboxEntity) (env : Env) (w : World) → Finished rows w (finish_batch rows env w).1
unfolding finish_batch transaction query mark_processed
finish_batch-Finished [] env w = commit-kept (env.outcome w.calls) w
finish_batch-Finished (row ∷ rows) env w =
    mark-Finished (env.outcome w.calls) (row ∷ rows) env (env.clock w.calls) (env.stamp w.calls).now
      w
