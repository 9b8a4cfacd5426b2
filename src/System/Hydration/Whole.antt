-- ===== src/System/Hydration/Whole.antt =====
-- `GET /orders/:id/stages` without parameters, over the states that the system can reach.
use order_outbox_lab.Common.{
  ℕ, suc, ◌+◌, ◌≡◌, ◌≤◌, refl, subst, inl, inr, ◌⊎◌, List, [], ◌∷◌, ◌++◌, Permᴰ, keep, length,
  length-Permᴰ, none, some, arith,
}
use mathlib.Core.List.{append-nil}
use order_outbox_lab.Pipeline.{Order}
use order_outbox_lab.Database.{OrderStageEventEntity}
use order_outbox_lab.Database.Query.{Sorter, IsOrdered}
use order_outbox_lab.Orders.Validation.{JsNumber}
use order_outbox_lab.Queries.{BaseQuery, default_query_limit, base_query, stage_events_query}
use order_outbox_lab.StageEvents.{event_wanted, by_id, list_for_order}
use order_outbox_lab.StageEvents.Streams.{list_for_order-Page}
use order_outbox_lab.Endpoints.{get_stages}
use order_outbox_lab.System.{Reach, System}
use order_outbox_lab.System.Invariant.{Reach-Holds}
use order_outbox_lab.System.Hydration.{few_events}

module _ {A : Type 0} where
  length-append : (xs ys : List A) → length (xs ++ ys) ≡ length xs + length ys
  length-append [] ys = omega arith
  length-append (x ∷ xs) ys = omega (arith, length-append xs ys)

  -- A page that is not full is the whole.
  whole_lem :
      (xs page rest : List A) (limit : ℕ)
      → Permᴰ xs (page ++ rest)
      → (rest ≡ []) ⊎ (length page ≡ limit)
      → suc (length xs) ≤ limit
      → Permᴰ xs page
  whole_lem xs page rest limit p (inl e) few =
      subst (Permᴰ xs) (append-nil page) (subst (λ r. Permᴰ xs (page ++ r)) e p)
  whole_lem xs page rest limit p (inr full) few =
      absurd (omega (arith, length-Permᴰ p, length-append page rest))

abbrev standard : BaseQuery
standard = record { limit = default_query_limit; order = Order.asc }

standard_lem : (js : JsNumber) → stage_events_query js none none ≡ some standard
unfolding stage_events_query base_query
standard_lem js = refl

-- In every reachable state, `GET /orders/:id/stages` without parameters answers with every stage
-- event of the order, each once and by ascending id, although the page has a limit of 50: an order
-- has at most 27 events.
pub get_stages-whole :
    {sorter : Sorter} {js : JsNumber} {s : System}
    → Reach sorter js s
    → (id : ℕ)
    → (page : List OrderStageEventEntity) × (get_stages js sorter id none none s.world.store
        ≡ some page)
      × Permᴰ (keep (event_wanted id) s.world.store.stage_events) page
      × IsOrdered (by_id Order.asc) page
      × (length page ≤ 27)
unfolding get_stages
get_stages-whole {sorter} {js} {s} r id =
    let events = s.world.store.stage_events in
    let page = list_for_order sorter id standard events in
    let p = list_for_order-Page sorter id standard events in
    let few = few_events (Reach-Holds r) id in
    let same =
      whole_lem (keep (event_wanted id) events) page p.rest default_query_limit p.same_rows p.full
        (omega (arith, few)) in
    (page, rw (standard_lem js) refl, same, p.ordered, omega (arith, few, length-Permᴰ same))
