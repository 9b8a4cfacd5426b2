-- ===== src/Orders.antt =====
-- src/modules/orders: the POST body and its validation, the creation of an order, and the two list
-- queries.
pub mod Validation
pub mod Creation
pub mod Lists
pub mod Trimming
use order_outbox_lab.Common.{ℕ, ◌∷◌, Option, none, some, Text, if◌then◌else◌}
use order_outbox_lab.Pipeline.{OrderStatus}
use order_outbox_lab.Database.{OrderEntity, Store, Stamp, new_base, has_order}
use order_outbox_lab.Effects.{M, Result, ok, err, ◌>>=◌, ◌>>◌, pure, throw, query, transaction}
use order_outbox_lab.Outbox.{OutboxEntry, enqueue_outbox}
use Validation.{JsNumber, CreateOrderBody, CreateOrderInput, parse_create_order}

-- The first attempt of a stage.
abbrev pub first_attempt : ℕ
first_attempt = 1

pub record CreatedOrder : Type 0 where
  pub id : ℕ
  pub customer_name : Text
  pub amount : Text
  pub status : OrderStatus

abbrev pub order_row : CreateOrderInput → Stamp → OrderEntity
order_row input t = record {
  base = new_base t;
  customer_name = input.customer_name;
  amount = input.amount;
  status = OrderStatus.pending;
}

-- `manager.save` of a new entity; `none` if the generated uuid is taken.
unfoldable pub insert_order : CreateOrderInput → Stamp → Store → Option (OrderEntity × Store)
insert_order input t s =
    if has_order t.id s.orders
    then none
    else some (order_row input t, record s { orders = order_row input t ∷ s.orders })

abbrev pub created : OrderEntity → CreatedOrder
created o = record {
  id = o.id;
  customer_name = o.customer_name;
  amount = o.amount;
  status = o.status;
}

-- The untagged outbox entry of a new order.
abbrev pub first_entry : ℕ → OutboxEntry
first_entry id = record {
  order_id = id;
  stage = none;
  attempt = first_attempt;
  available_at = none;
}

abbrev pub announce : OrderEntity → M CreatedOrder
announce order = enqueue_outbox (first_entry order.id) >> pure (created order)

unfoldable pub create_body : CreateOrderInput → M CreatedOrder
create_body input = query (insert_order input) >>= announce

abbrev pub create_parsed : Result CreateOrderInput → M CreatedOrder
create_parsed (ok input) = transaction (create_body input)
create_parsed (err e) = throw e

-- `OrdersService.create`: a bad body is refused before the database is touched.
unfoldable pub create : (js : JsNumber) → CreateOrderBody js → M CreatedOrder
create js body = create_parsed (parse_create_order js body)
