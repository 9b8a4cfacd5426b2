-- ===== src/Status.antt =====
-- `OrderStatusService` of src/modules/status/services/order-status.service.ts: two guarded UPDATEs
-- on every settled frame, both computed from the tables.
pub mod Settling
pub mod Deciding
pub mod Moves
use Prim.Native.Nat.{suc}
use order_outbox_lab.Common.{
  ℕ, Bool, true, false, ◌&&◌, List, [], ◌∷◌, map, Option, some, ◌==◌, if◌then◌else◌, ite, keep,
  contains,
}
use order_outbox_lab.Pipeline.{
  StageName, OrderStatus, stage_count, StageName-discrete, is_completed, is_dead, is_pending,
}
use order_outbox_lab.Database.{OrderEntity, OrderStageEventEntity, StageRetryEntity, Store, Stamp}
use order_outbox_lab.Frames.{StageEventFrame}
use order_outbox_lab.Effects.{M, ◌>>=◌, ◌>>◌, query, catching}

-- `count(DISTINCT stage)`
unfoldable pub count_distinct : List StageName → ℕ
count_distinct [] = 0
count_distinct (s ∷ ss) =
    let rest = count_distinct ss in if contains StageName-discrete s ss then rest else suc rest

abbrev pub completes : ℕ → OrderStageEventEntity → Bool
completes id e = e.order_id == id && is_completed e.status

unfoldable pub completed_stages : ℕ → List OrderStageEventEntity → List StageName
completed_stages id events = map (λ e. e.stage) (keep (completes id) events)

unfoldable pub all_completed : ℕ → List OrderStageEventEntity → Bool
all_completed id events = count_distinct (completed_stages id events) == stage_count

-- `EXISTS (SELECT 1 FROM stage_retries …)`
unfoldable pub has_dead_letter : ℕ → List StageRetryEntity → Bool
has_dead_letter id [] = false
has_dead_letter id (r ∷ rs) =
    if r.order_id == id && is_dead r.status then true else has_dead_letter id rs

-- `UPDATE orders SET status = …, updated_at = now() WHERE id = … AND status = 'pending' AND …`
unfoldable pub settle_rows : ℕ → Bool → OrderStatus → ℕ → List OrderEntity → List OrderEntity
settle_rows id holds status now [] = []
settle_rows id holds status now (o ∷ os) =
    (if o.id == id && is_pending o.status && holds
      then record o { base = record o.base { updated_at = now }; status = status }
      else o)
    ∷ settle_rows id holds status now os

unfoldable pub fulfil_order : ℕ → Stamp → Store → Option (Unit {0} × Store)
fulfil_order id t s = some (
  tt,
  record s {
    orders = settle_rows id (all_completed id s.stage_events) OrderStatus.fulfilled t.now s.orders;
  },
)

unfoldable pub fail_order : ℕ → Stamp → Store → Option (Unit {0} × Store)
fail_order id t s = some (
  tt,
  record s {
    orders = settle_rows id (has_dead_letter id s.stage_retries) OrderStatus.failed t.now s.orders;
  },
)

unfoldable pub recompute : ℕ → M (Unit {0})
recompute id = query (fulfil_order id) >> query (fail_order id)

-- The watcher's subscriber; its errors are logged.
unfoldable pub on_settled : StageEventFrame → M (Unit {0})
on_settled frame = catching tt (recompute frame.order_id)
