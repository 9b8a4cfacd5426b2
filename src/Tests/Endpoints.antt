-- ===== src/Tests/Endpoints.antt =====
-- The list endpoints at the tables of the sample history.
use order_outbox_lab.Common.{◌≡◌, ◌≤◌, refl, List, Permᴰ, keep, length, none, some}
use order_outbox_lab.Pipeline.{Order}
use order_outbox_lab.Database.{OrderEntity, OrderStageEventEntity, StageRetryEntity, Store}
use order_outbox_lab.Database.Query.{IsOrdered}
use order_outbox_lab.Orders.Lists.{
  order_wanted, by_created, list_orders, list_dead_letters, dead_letter_wanted, by_count,
}
use order_outbox_lab.Queries.{
  BaseQuery, OrdersQuery, DeadLettersQuery, base_query, orders_query, dead_letters_query,
}
use order_outbox_lab.Queries.Pages.{Page}
use order_outbox_lab.StageEvents.{event_wanted, by_id}
use order_outbox_lab.Endpoints.{get_orders, get_dead_letters, get_stages}
use order_outbox_lab.Endpoints.Lists.{Checked, get_orders-Page, get_dead_letters-Page}
use order_outbox_lab.System.Hydration.Whole.{get_stages-whole}
use order_outbox_lab.Samples.Sorting.{sample_sorter}
use order_outbox_lab.Samples.Numbers.{sample_js}
use order_outbox_lab.Samples.History.{all_done, dead, all_done-Reached}

abbrev newest : BaseQuery
newest = record { limit = 50; order = Order.desc }

abbrev tables : Store
tables = dead.world.store

abbrev orders_page : List OrderEntity
orders_page = list_orders sample_sorter (record { base = newest; status = none }) tables.orders

abbrev dead_page : List StageRetryEntity
dead_page =
    list_dead_letters sample_sorter (record { base = newest; stage = none }) tables.stage_retries

get_orders-Page_example :
    (q : OrdersQuery) × (orders_query sample_js none none none ≡ some q)
    × Checked none none Order.desc q.base
    × Page (order_wanted q) (by_created q.order) q.limit tables.orders orders_page
unfolding get_orders orders_query base_query
get_orders-Page_example =
    get_orders-Page sample_js sample_sorter none none tables none orders_page refl

get_dead_letters-Page_example :
    (q : DeadLettersQuery) × (dead_letters_query sample_js none none none ≡ some q)
    × Checked none none Order.desc q.base
    × Page (dead_letter_wanted q) (by_count q.order) q.limit tables.stage_retries dead_page
unfolding get_dead_letters dead_letters_query base_query
get_dead_letters-Page_example =
    get_dead_letters-Page sample_js sample_sorter none none tables none dead_page refl

get_stages-whole_example :
    (page : List OrderStageEventEntity) × (get_stages sample_js sample_sorter 1 none none
        all_done.world.store
      ≡ some page)
    × Permᴰ (keep (event_wanted 1) all_done.world.store.stage_events) page
    × IsOrdered (by_id Order.asc) page
    × (length page ≤ 27)
get_stages-whole_example = get_stages-whole all_done-Reached 1
