-- ===== src/Status/Settling.antt =====
-- The two guarded UPDATEs of the status watcher on the rows of `orders`.
use order_outbox_lab.Common.{
  ◌≡◌, ℕ, Bool, true, false, List, [], ◌∷◌, Option, none, some, ◌==◌, if◌then◌else◌, arith,
}
use Prim.Native.Nat.{suc}
use order_outbox_lab.Pipeline.{OrderStatus}
use order_outbox_lab.Database.{OrderEntity}
use order_outbox_lab.Effects.{Outcome, Env, World, Result, ok, err, then_run, query}
use order_outbox_lab.Effects.Laws.{query-store}
use order_outbox_lab.Status.{
  all_completed, has_dead_letter, settle_rows, fulfil_order, fail_order, recompute,
}

-- The tables other than `orders`, and the deliveries.
abbrev pub Kept : World → World → Type 0
Kept w u =
    (u.store.outbox ≡ w.store.outbox)
    × (u.store.stage_events ≡ w.store.stage_events)
    × (u.store.stage_retries ≡ w.store.stage_retries)
    × (u.delivered ≡ w.delivered)

pub fulfil-Kept : (id : ℕ) (env : Env) (w : World) → Kept w (query (fulfil_order id) env w).1
unfolding fulfil_order
fulfil-Kept id env w = ground (arith, query-store (fulfil_order id) env w)

pub fail-Kept : (id : ℕ) (env : Env) (w : World) → Kept w (query (fail_order id) env w).1
unfolding fail_order
fail-Kept id env w = ground (arith, query-store (fail_order id) env w)

then-Kept :
    (id : ℕ) (env : Env) (w : World) (r : Result (Unit {0}) × World)
    → Kept w r.1
    → Kept w (then_run env (λ _. query (fail_order id)) r).1
then-Kept id env w (ok x, v) k = ground (arith, fail-Kept id env v)
then-Kept id env w (err e, v) k = k

-- `recompute` touches no table but `orders`.
pub recompute-Kept : (id : ℕ) (env : Env) (w : World) → Kept w (recompute id env w).1
unfolding recompute
recompute-Kept id env w = then-Kept id env w (query (fulfil_order id) env w) (fulfil-Kept id env w)

-- The status of an order, if there is one.
unfoldable pub status_of : ℕ → List OrderEntity → Option OrderStatus
status_of id [] = none
status_of id (o ∷ os) = if o.id == id then some o.status else status_of id os

-- What a guarded UPDATE makes of a status.
abbrev pub settle_status : Bool → OrderStatus → Option OrderStatus → Option OrderStatus
settle_status true to (some OrderStatus.pending) = some to
settle_status _ to current = current

-- The UPDATE changes the order that it names, if that is pending and the condition holds, and no
-- other order.
pub status_of-settle_rows :
    (id j : ℕ) (holds : Bool) (to : OrderStatus) (now : ℕ) (orders : List OrderEntity)
    → status_of j (settle_rows id holds to now orders)
      ≡ (if id == j then settle_status holds to (status_of j orders) else status_of j orders)
unfolding status_of settle_rows
status_of-settle_rows id j true to now [] = ground arith
status_of-settle_rows id j false to now [] = ground arith
status_of-settle_rows id j true to now (o ∷ os) =
    ground (arith, status_of-settle_rows id j true to now os)
status_of-settle_rows id j false to now (o ∷ os) =
    ground (arith, status_of-settle_rows id j false to now os)

-- The watcher's decision.
abbrev pub decide_status : Bool → Bool → Option OrderStatus → Option OrderStatus
decide_status completed dead current =
    settle_status dead OrderStatus.failed (settle_status completed OrderStatus.fulfilled current)

-- When its two statements succeed, `recompute` gives a pending order the status that the tables
-- call for, and changes no settled order and no other order.
pub recompute-decides :
    (id j : ℕ) (env : Env) (w : World)
    → env.outcome w.calls ≡ Outcome.done
    → env.outcome (suc w.calls) ≡ Outcome.done
    → status_of j (recompute id env w).1.store.orders ≡ (
        if id == j
        then decide_status
            (all_completed id w.store.stage_events)
            (has_dead_letter id w.store.stage_retries)
            (status_of j w.store.orders)
        else status_of j w.store.orders)
unfolding recompute query fulfil_order fail_order
recompute-decides id j env w first second =
    let events = all_completed id w.store.stage_events in
    let dead = has_dead_letter id w.store.stage_retries in
    let after =
      settle_rows id events OrderStatus.fulfilled (env.stamp w.calls).now w.store.orders in
    ground (
      arith,
      first,
      second,
      status_of-settle_rows id j events OrderStatus.fulfilled (env.stamp w.calls).now
          w.store.orders,
      status_of-settle_rows id j dead OrderStatus.failed (env.stamp (suc w.calls)).now after,
    )
