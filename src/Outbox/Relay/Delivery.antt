-- ===== src/Outbox/Relay/Delivery.antt =====
-- `OutboxRelayService`: what a tick emits, what it marks, and in which order.
use order_outbox_lab.Common.{
  ℕ, suc, Bool, ◌≡◌, refl, sym, ap, List, [], ◌∷◌, ◌++◌, map, some, length, contains,
}
use order_outbox_lab.Database.{OutboxEntity, Store}
use order_outbox_lab.Database.Query.{Sorter}
use order_outbox_lab.Frames.{Attempt}
use order_outbox_lab.Effects.{
  Outcome, Env, World, Result, ok, query, transaction, emit_all, end_transaction, then_run, settle,
  tick, pure, commit,
}
use order_outbox_lab.Outbox.{claim_rows, select_claimable, mark_rows, mark_processed}
use order_outbox_lab.Outbox.Relay.{emissions, emit_and_mark, claim_body, claim_and_emit}

abbrev pub ids : List OutboxEntity → List ℕ
ids = map (λ row. row.id)

-- The store with the rows marked.
abbrev pub marked : List OutboxEntity → ℕ → ℕ → Store → Store
marked rows at now s = record s { outbox = mark_rows (ids rows) at now s.outbox }

-- How a tick that claimed `rows` may end. No row is marked unless it was emitted before.
pub data Relayed (rows : List OutboxEntity) (s : Store) (before : List Attempt) (u : World)
    : Type 0 where
  untouched : u.store ≡ s → u.delivered ≡ before → Relayed rows s before u
  emitted : u.store ≡ s → u.delivered ≡ emissions rows ++ before → Relayed rows s before u
  relayed :
      (at now : ℕ)
      → u.store ≡ marked rows at now s
      → u.delivered ≡ emissions rows ++ before
      → Relayed rows s before u

-- A tick that resolves has emitted and marked its whole batch.
abbrev pub Resolves : List OutboxEntity → Store → List Attempt → Result ℕ × World → Type 0
Resolves rows s before (r, u) =
    (n : ℕ)
    → r ≡ ok n
    → (n ≡ length rows)
      × (u.delivered ≡ emissions rows ++ before)
      × ((at : ℕ) × (now : ℕ) × (u.store ≡ marked rows at now s))

mark_rows-nil : (at now : ℕ) (rows : List OutboxEntity) → mark_rows [] at now rows ≡ rows
unfolding mark_rows contains
mark_rows-nil at now [] = refl
mark_rows-nil at now (row ∷ rows) = ap (◌∷◌ row) (mark_rows-nil at now rows)

module _ (rows : List OutboxEntity) (v : World) where
  abbrev sent : World
  sent = record v { delivered = emissions rows ++ v.delivered }

  -- The COMMIT of a tick that marked its rows.
  commit-Relayed :
      (o : Outcome) (at now : ℕ)
      → let w = tick (tick (record sent { store = marked rows at now v.store })) in
        let r = commit o v.store (length rows) w in
        Relayed rows v.store v.delivered r.1 × Resolves rows v.store v.delivered r
  commit-Relayed Outcome.done at now =
      (relayed at now refl refl, (λ n e. (ok-length n e, refl, (at, now, refl))))
    where
      ok-length : (n : ℕ) → ◌≡◌ {A = Result ℕ} (ok (length rows)) (ok n) → n ≡ length rows
      ok-length n e = cc
  commit-Relayed Outcome.rejected at now = (emitted refl refl, (λ n e. cc))
  commit-Relayed Outcome.lost at now = (relayed at now refl refl, (λ n e. cc))

  -- The UPDATE of a tick and what follows.
  mark-Relayed :
      (o : Outcome) (env : Env) (at now : ℕ)
      → let r = end_transaction env v.store (
          then_run env
            (λ _. pure (length rows))
            (settle o (tick sent) (some (tt, marked rows at now v.store)))) in
        Relayed rows v.store v.delivered r.1 × Resolves rows v.store v.delivered r
  mark-Relayed Outcome.done env at now = commit-Relayed (env.outcome (suc v.calls)) at now
  mark-Relayed Outcome.rejected env at now = (emitted refl refl, (λ n e. cc))
  mark-Relayed Outcome.lost env at now = (emitted refl refl, (λ n e. cc))

-- An empty batch: there is nothing to emit or to mark.
empty-Relayed :
    (o : Outcome) (v : World)
    → let r = commit {A = ℕ} o v.store 0 (tick v) in
      Relayed [] v.store v.delivered r.1 × Resolves [] v.store v.delivered r
unfolding emissions
empty-Relayed Outcome.done v = (untouched refl refl, (λ n e. (zero-length n e, refl, (0, 0, same))))
  where
    zero-length : (n : ℕ) → ◌≡◌ {A = Result ℕ} (ok 0) (ok n) → n ≡ 0
    zero-length n e = cc

    same : v.store ≡ marked [] 0 0 v.store
    same = ap (λ rows. record v.store { outbox = rows }) (sym (mark_rows-nil 0 0 v.store.outbox))
empty-Relayed Outcome.rejected v = (untouched refl refl, (λ n e. cc))
empty-Relayed Outcome.lost v = (untouched refl refl, (λ n e. cc))

emit_and_mark-Relayed :
    (rows : List OutboxEntity) (env : Env) (v : World)
    → let r = end_transaction env v.store (emit_and_mark rows env v) in
      Relayed rows v.store v.delivered r.1 × Resolves rows v.store v.delivered r
unfolding emit_all query mark_processed
emit_and_mark-Relayed [] env v = empty-Relayed (env.outcome v.calls) v
emit_and_mark-Relayed (row ∷ rows) env v =
    mark-Relayed (row ∷ rows) v (env.outcome v.calls) env (env.clock v.calls)
      (env.stamp v.calls).now

select-Relayed :
    (o : Outcome) (rows : List OutboxEntity) (env : Env) (w : World)
    → let r =
        end_transaction env w.store
          (then_run env emit_and_mark (settle o (tick w) (some (rows, w.store)))) in
      Relayed rows w.store w.delivered r.1 × Resolves rows w.store w.delivered r
select-Relayed Outcome.done rows env w = emit_and_mark-Relayed rows env (tick w)
select-Relayed Outcome.rejected rows env w = (untouched refl refl, (λ n e. cc))
select-Relayed Outcome.lost rows env w = (untouched refl refl, (λ n e. cc))

-- What a tick may do, with the batch that its SELECT claims: nothing; emit it, and then fail, so
-- that the rows stay unprocessed and will be emitted again; or emit it and mark exactly it. A tick
-- that resolves has done the last, and returns the size of the batch.
pub claim_and_emit-Relayed :
    (sorter : Sorter) (locked : ℕ → Bool) (env : Env) (w : World)
    → let rows = claim_rows sorter locked (env.stamp w.calls).now w.store.outbox in
      let r = claim_and_emit sorter locked env w in
      Relayed rows w.store w.delivered r.1 × Resolves rows w.store w.delivered r
unfolding claim_and_emit transaction claim_body query select_claimable
claim_and_emit-Relayed sorter locked env w =
    select-Relayed (env.outcome w.calls)
      (claim_rows sorter locked (env.stamp w.calls).now w.store.outbox) env w
