-- ===== src/Queries/Bounds.antt =====
-- What a list endpoint lets through.
use order_outbox_lab.Common.{ℕ, ◌≡◌, ◌≤◌, refl, Option, none, some, Text, arith}
use order_outbox_lab.Pipeline.{Order}
use order_outbox_lab.Orders.Validation.{JsNumber}
use order_outbox_lab.Queries.{
  BaseQuery, default_query_limit, max_query_limit, optional, both, limit_of, order_of, base_query,
}

limit-bounds :
    (js : JsNumber) (limit : Option Text) (n : ℕ)
    → optional default_query_limit (limit_of js) limit ≡ some n
    → (1 ≤ n) × (n ≤ max_query_limit)
unfolding limit_of
limit-bounds js none n h = ground arith
limit-bounds js (some text) n h = ground arith

pub both-eq-some :
    {A B C : Type 0} (f : A → B → C) (a : Option A) (b : Option B) (c : C)
    → both f a b ≡ some c
    → (x : A) × (y : B) × (a ≡ some x) × (b ≡ some y) × (f x y ≡ c)
both-eq-some f (some a) (some b) c h = (a, b, refl, refl, ground arith)
both-eq-some f (some a) none c h = cc
both-eq-some f none b c h = cc

-- A list query that passes validation has a limit from 1 to 200, which is 50 where the parameter is
-- absent, and the direction of its endpoint where that is absent.
pub base_query-bounds :
    (js : JsNumber) (standard : Order) (limit order : Option Text) (q : BaseQuery)
    → base_query js standard limit order ≡ some q
    → (1 ≤ q.limit)
      × (q.limit ≤ max_query_limit)
      × (limit ≡ none → q.limit ≡ default_query_limit)
      × (order ≡ none → q.order ≡ standard)
unfolding base_query
base_query-bounds js standard limit order q h =
    let (n, o, e, e', same) =
      both-eq-some _ (optional default_query_limit (limit_of js) limit)
        (optional standard order_of order) q h in
    ground (arith, limit-bounds js limit n e, e, e', same)
