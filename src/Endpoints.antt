-- ===== src/Endpoints.antt =====
-- The controllers of src/modules/orders and src/modules/stage-events, with the validation pipe of
-- src/main.ts before them: `none` is its 400.
pub mod Lists
use order_outbox_lab.Common.{ℕ, List, Option, none, some, Text}
use order_outbox_lab.Database.{OrderEntity, OrderStageEventEntity, StageRetryEntity, Store}
use order_outbox_lab.Database.Query.{Sorter}
use order_outbox_lab.Effects.{M}
use order_outbox_lab.Orders.Validation.{JsNumber, JsValue, CreateOrderBody}
use order_outbox_lab.Orders.{CreatedOrder, create}
use order_outbox_lab.Orders.Lists.{list_orders, list_dead_letters}
use order_outbox_lab.Queries.{orders_query, dead_letters_query, stage_events_query}
use order_outbox_lab.StageEvents.{list_for_order}

-- The pipe, then the handler.
abbrev pub validated : {Q A : Type 0} → Option Q → (Q → A) → Option A
validated none handler = none
validated (some q) handler = some (handler q)

module _ (js : JsNumber) where
  abbrev pub empty_body : CreateOrderBody js
  empty_body = record { customer_name = JsValue.undefined; amount = JsValue.undefined }

  -- `body ?? {}`
  abbrev pub body_or_empty : Option (CreateOrderBody js) → CreateOrderBody js
  body_or_empty none = empty_body
  body_or_empty (some body) = body

  -- `POST /orders`
  unfoldable pub post_order : Option (CreateOrderBody js) → M CreatedOrder
  post_order body = create js (body_or_empty body)

  module _ (sorter : Sorter) where
    -- `GET /orders?limit=&order=&status=`
    unfoldable pub get_orders :
        (limit order status : Option Text) → Store → Option (List OrderEntity)
    get_orders limit order status s =
        validated (orders_query js limit order status) (λ q. list_orders sorter q s.orders)

    -- `GET /dead-letters?limit=&order=&stage=`
    unfoldable pub get_dead_letters :
        (limit order stage : Option Text) → Store → Option (List StageRetryEntity)
    get_dead_letters limit order stage s =
        validated (dead_letters_query js limit order stage)
          λ q. list_dead_letters sorter q s.stage_retries

    -- `GET /orders/:id/stages?limit=&order=`
    unfoldable pub get_stages :
        ℕ → (limit order : Option Text) → Store → Option (List OrderStageEventEntity)
    get_stages id limit order s =
        validated (stage_events_query js limit order) λ q. list_for_order sorter id q s.stage_events
