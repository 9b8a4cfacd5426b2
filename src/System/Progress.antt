-- ===== src/System/Progress.antt =====
-- What the calls of an instance give when no call of the database or of the bus fails, and generated
-- ids are new.
use order_outbox_lab.Common.{
  ℕ, suc, Bool, List, [], ◌∷◌, ◌≡◌, refl, true, false, some, length, arith,
}
use order_outbox_lab.Database.{OutboxEntity, has_order}
use order_outbox_lab.Database.Query.{Sorter}
use order_outbox_lab.Effects.{
  Outcome, Env, World, ok, query, transaction, tick, end_transaction, emit_all,
}
use order_outbox_lab.Orders.Validation.{
  JsNumber, CreateOrderBody, CreateOrderInput, parse_create_order,
}
use order_outbox_lab.Orders.{created, order_row, create, create_body, insert_order}
use order_outbox_lab.Outbox.{
  has_row, insert_outbox, enqueue_outbox, claim_rows, select_claimable, mark_processed,
}
use order_outbox_lab.Stages.Runner.Succeeding.{Calm}
use order_outbox_lab.Pipeline.{OrderStatus}
use order_outbox_lab.Status.{all_completed, has_dead_letter, recompute}
use order_outbox_lab.Status.Settling.{status_of, recompute-decides}
use order_outbox_lab.System.{System, Reach}
use order_outbox_lab.System.Safety.{conditions_exclusive}
use order_outbox_lab.System.Overlap.Results.{Reach-Reached}
use order_outbox_lab.Outbox.Relay.{emit_and_mark, claim_body, claim_and_emit}

batch-resolves :
    (rows : List OutboxEntity) (env : Env) (v : World)
    → Calm env
    → (end_transaction env v.store (emit_and_mark rows env v)).0 ≡ ok (length rows)
unfolding emit_all query mark_processed
batch-resolves [] env v calm = ground (arith, calm v.calls)
batch-resolves (row ∷ rows) env v calm = rw (calm v.calls, calm (suc v.calls)) refl

-- If no call fails and the generated ids are new, a valid order is created, and returned as it was
-- saved: pending, with the trimmed name and the rounded amount.
pub create-resolves :
    (js : JsNumber) (body : CreateOrderBody js) (input : CreateOrderInput) (env : Env) (w : World)
    → Calm env
    → parse_create_order js body ≡ ok input
    → has_order (env.stamp w.calls).id w.store.orders ≡ false
    → has_row (env.stamp (suc w.calls)).id w.store.outbox ≡ false
    → (create js body env w).0 ≡ ok (created (order_row input (env.stamp w.calls)))
unfolding create create_body insert_order enqueue_outbox insert_outbox query transaction has_order
create-resolves js body input env w calm parsed new fresh =
    rw parsed
      (ground (arith, calm w.calls, calm (suc w.calls), calm (suc (suc w.calls)), new, fresh))

-- If no call fails, a tick resolves, with the size of the batch that its SELECT claims.
pub claim_and_emit-resolves :
    (sorter : Sorter) (locked : ℕ → Bool) (env : Env) (w : World)
    → Calm env
    → (claim_and_emit sorter locked env w).0
      ≡ ok (length (claim_rows sorter locked (env.stamp w.calls).now w.store.outbox))
unfolding claim_and_emit claim_body query transaction select_claimable
claim_and_emit-resolves sorter locked env w calm = rw (calm w.calls) (
    batch-resolves (claim_rows sorter locked (env.stamp w.calls).now w.store.outbox) env (tick w)
      calm)

module _ {sorter : Sorter} {js : JsNumber} {s : System} (r : Reach sorter js s) (id : ℕ) (env : Env)
    (first : env.outcome s.world.calls ≡ Outcome.done)
    (second : env.outcome (suc s.world.calls) ≡ Outcome.done)
    (waiting : status_of id s.world.store.orders ≡ some OrderStatus.pending) where
  -- In every reachable state, a `recompute` whose two statements succeed fulfils a pending order whose
  -- stages have all completed, fails one with a dead-lettered stage, and leaves any other pending.
  pub recompute-settles :
      let after = status_of id (recompute id env s.world).1.store.orders in
      (all_completed id s.world.store.stage_events ≡ true → after ≡ some OrderStatus.fulfilled)
      × (has_dead_letter id s.world.store.stage_retries ≡ true → after ≡ some OrderStatus.failed)
      × (all_completed id s.world.store.stage_events ≡ false
          → has_dead_letter id s.world.store.stage_retries ≡ false
          → after ≡ some OrderStatus.pending)
  recompute-settles =
      let e = recompute-decides id id env s.world first second in
      let x = conditions_exclusive (Reach-Reached r) id in ground (arith, e, x, waiting)
