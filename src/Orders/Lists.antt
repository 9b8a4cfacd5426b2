-- ===== src/Orders/Lists.antt =====
-- The two lists that src/modules/orders serves: `OrdersService.list` and `DeadLettersService.list`.
-- Dead letters live in a table with no `deleted_at`.
use order_outbox_lab.Common.{Bool, true, false, ◌&&◌, List, Option, none, some, leb, ite}
use order_outbox_lab.Pipeline.{
  StageName, OrderStatus, Order, StageName-discrete, OrderStatus-discrete, is_dead,
}
use order_outbox_lab.Database.{OrderEntity, StageRetryEntity}
use order_outbox_lab.Database.Query.{Sorter, is_none, directed, find}
use order_outbox_lab.Queries.{OrdersQuery, DeadLettersQuery}
use order_outbox_lab.Queries.Pages.{Page, find-Page, key-IsLinear}

abbrev pub has_status : Option OrderStatus → OrderEntity → Bool
has_status none o = true
has_status (some s) o = ite (OrderStatus-discrete o.status s) true false

-- `where: query.status ? { status } : {}`, without the soft-deleted orders.
unfoldable pub order_wanted : OrdersQuery → OrderEntity → Bool
unfolding OrderStatus-discrete
order_wanted q o = is_none o.deleted_at && has_status q.status o

abbrev pub by_created : Order → OrderEntity → OrderEntity → Bool
by_created d = directed d (λ a b. leb a.created_at b.created_at)

unfoldable pub list_orders : Sorter → OrdersQuery → List OrderEntity → List OrderEntity
unfolding order_wanted find
list_orders sorter q orders = find sorter (order_wanted q) (by_created q.order) q.limit orders

abbrev pub has_stage : Option StageName → StageRetryEntity → Bool
has_stage none r = true
has_stage (some s) r = ite (StageName-discrete r.stage s) true false

unfoldable pub dead_letter_wanted : DeadLettersQuery → StageRetryEntity → Bool
unfolding StageName-discrete
dead_letter_wanted q r = is_dead r.status && has_stage q.stage r

abbrev pub by_count : Order → StageRetryEntity → StageRetryEntity → Bool
by_count d = directed d (λ a b. leb a.retry_count b.retry_count)

unfoldable pub list_dead_letters :
    Sorter → DeadLettersQuery → List StageRetryEntity → List StageRetryEntity
unfolding dead_letter_wanted find
list_dead_letters sorter q rows = find sorter (dead_letter_wanted q) (by_count q.order) q.limit rows

-- `GET /orders`: at most `limit` orders of the wanted status, none deleted, sorted by `created_at`
-- in the wanted direction; those left out sort after them, and none is left out of a page that is
-- not full.
pub list_orders-Page :
    (sorter : Sorter) (q : OrdersQuery) (orders : List OrderEntity)
    → Page (order_wanted q) (by_created q.order) q.limit orders (list_orders sorter q orders)
unfolding list_orders
list_orders-Page sorter q orders =
    find-Page (by_created q.order) sorter (order_wanted q) q.limit orders
      (key-IsLinear (λ o. o.created_at) q.order)

-- `GET /dead-letters`: at most `limit` dead-lettered pairs of the wanted stage, sorted by
-- `retry_count` in the wanted direction; those left out sort after them, and none is left out of a
-- page that is not full.
pub list_dead_letters-Page :
    (sorter : Sorter) (q : DeadLettersQuery) (rows : List StageRetryEntity)
    → Page (dead_letter_wanted q) (by_count q.order) q.limit rows (list_dead_letters sorter q rows)
unfolding list_dead_letters
list_dead_letters-Page sorter q rows =
    find-Page (by_count q.order) sorter (dead_letter_wanted q) q.limit rows
      (key-IsLinear (λ r. r.retry_count) q.order)
