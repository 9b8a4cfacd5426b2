-- ===== src/Endpoints/Lists.antt =====
-- What the list endpoints answer.
use order_outbox_lab.Common.{◌≡◌, ◌≤◌, refl, sym, subst, List, Option, none, some, Text}
use order_outbox_lab.Pipeline.{Order}
use order_outbox_lab.Database.{OrderEntity, StageRetryEntity, Store}
use order_outbox_lab.Database.Query.{Sorter}
use order_outbox_lab.Orders.Validation.{JsNumber}
use order_outbox_lab.Orders.Lists.{
  order_wanted, by_created, list_orders-Page, dead_letter_wanted, by_count, list_dead_letters-Page,
}
use order_outbox_lab.Queries.{
  BaseQuery, OrdersQuery, DeadLettersQuery, default_query_limit, max_query_limit, base_query,
  orders_query, dead_letters_query,
}
use order_outbox_lab.Queries.Bounds.{both-eq-some, base_query-bounds}
use order_outbox_lab.Queries.Pages.{Page}
use order_outbox_lab.Endpoints.{validated, get_orders, get_dead_letters}

validated-eq-some :
    {Q A : Type 0} (check : Option Q) (handler : Q → A) (a : A)
    → validated check handler ≡ some a
    → (q : Q) × (check ≡ some q) × (a ≡ handler q)
validated-eq-some none handler a h = cc
validated-eq-some (some q) handler a h = (q, refl, cc)

-- What validation makes of the two shared parameters.
abbrev pub Checked : Option Text → Option Text → Order → BaseQuery → Type 0
Checked limit order standard q =
    (1 ≤ q.limit)
    × (q.limit ≤ max_query_limit)
    × (limit ≡ none → q.limit ≡ default_query_limit)
    × (order ≡ none → q.order ≡ standard)

module _ (js : JsNumber) (sorter : Sorter) (limit order : Option Text) (s : Store) where
  -- `GET /orders` answers only if its parameters pass validation, with a page of the orders: at most
  -- `limit` of them, which is 1 to 200, and 50 where it is absent; all of the wanted status and not
  -- deleted; sorted by `created_at` in the wanted direction, newest first where it is absent; those
  -- left out sort after them, and none is left out of a page that is not full.
  pub get_orders-Page :
      (status : Option Text) (page : List OrderEntity)
      → get_orders js sorter limit order status s ≡ some page
      → (q : OrdersQuery) × (orders_query js limit order status ≡ some q)
        × Checked limit order Order.desc q.base
        × Page (order_wanted q) (by_created q.order) q.limit s.orders page
  unfolding get_orders orders_query
  get_orders-Page status page h =
      let (q, e, same) = validated-eq-some (orders_query js limit order status) _ page h in
      let (b, _, e', _, made) = both-eq-some _ (base_query js Order.desc limit order) _ q e in
      (
        q,
        e,
        subst (λ x. Checked limit order Order.desc x.base) made
            (base_query-bounds js Order.desc limit order b e'),
        subst (Page (order_wanted q) (by_created q.order) q.limit s.orders) (sym same)
            (list_orders-Page sorter q s.orders),
      )

  -- `GET /dead-letters` answers only if its parameters pass validation, with a page of the pairs: at
  -- most `limit` of them, which is 1 to 200, and 50 where it is absent; all dead-lettered and of the
  -- wanted stage; sorted by `retry_count` in the wanted direction, highest first where it is absent;
  -- those left out sort after them, and none is left out of a page that is not full.
  pub get_dead_letters-Page :
      (stage : Option Text) (page : List StageRetryEntity)
      → get_dead_letters js sorter limit order stage s ≡ some page
      → (q : DeadLettersQuery) × (dead_letters_query js limit order stage ≡ some q)
        × Checked limit order Order.desc q.base
        × Page (dead_letter_wanted q) (by_count q.order) q.limit s.stage_retries page
  unfolding get_dead_letters dead_letters_query
  get_dead_letters-Page stage page h =
      let (q, e, same) = validated-eq-some (dead_letters_query js limit order stage) _ page h in
      let (b, _, e', _, made) = both-eq-some _ (base_query js Order.desc limit order) _ q e in
      (
        q,
        e,
        subst (λ x. Checked limit order Order.desc x.base) made
            (base_query-bounds js Order.desc limit order b e'),
        subst (Page (dead_letter_wanted q) (by_count q.order) q.limit s.stage_retries) (sym same)
            (list_dead_letters-Page sorter q s.stage_retries),
      )
