-- ===== src/Orders/Creation.antt =====
-- The transaction of `OrdersService.create` under failures.
use order_outbox_lab.Common.{◌≡◌, refl, ap, subst, ◌∙◌, ◌⊎◌, inl, inr, false, ◌∷◌, some, arith}
use order_outbox_lab.Database.{OrderEntity, Store, Stamp, has_order}
use order_outbox_lab.Effects.{Env, World, Error, Result, ok, err, pure, query, transaction}
use order_outbox_lab.Effects.Laws.{
  >>=-eq-ok, query-eq-ok, transaction-store, transaction-eq-ok, Silent, >>=-Silent, query-Silent,
}
use order_outbox_lab.Outbox.{insert_outbox, enqueue_outbox, outbox_row, has_row}
use order_outbox_lab.Orders.Validation.{
  JsNumber, CreateOrderBody, CreateOrderInput, parse_create_order,
}
use order_outbox_lab.Orders.{
  CreatedOrder, order_row, insert_order, created, first_entry, announce, create_body, create,
}

-- One order more, and one untagged outbox row that names it.
pub record OrderCreated (input : CreateOrderInput) (order : CreatedOrder) (s s' : Store)
    : Type 0 where
  pub saved_at : Stamp
  pub queued_at : Stamp
  pub new_id : has_order saved_at.id s.orders ≡ false
  pub new_row : has_row queued_at.id s.outbox ≡ false
  pub returned : order ≡ created (order_row input saved_at)
  pub after : s' ≡ record s {
    orders = order_row input saved_at ∷ s.orders;
    outbox = outbox_row (first_entry saved_at.id) queued_at ∷ s.outbox;
  }

-- The two inserts, with the second seeing the first.
inserts-OrderCreated :
    (input : CreateOrderInput) (t t' : Stamp) (s s1 s2 : Store) {o : OrderEntity}
    → insert_order input t s ≡ some (o, s1)
    → insert_outbox (first_entry o.id) t' s1 ≡ some (tt, s2)
    → OrderCreated input (created o) s s2
unfolding insert_order insert_outbox has_order
inserts-OrderCreated input t t' s s1 s2 h k = record {
  saved_at = t;
  queued_at = t';
  new_id = ground arith;
  new_row = ground arith;
  returned = ground arith;
  after = ground arith;
}

create_body-OrderCreated :
    (input : CreateOrderInput) (env : Env) (w : World) {c : CreatedOrder}
    → (create_body input env w).0 ≡ ok c
    → OrderCreated input c w.store (create_body input env w).1.store
unfolding create_body enqueue_outbox
create_body-OrderCreated input env w {c} e =
    let whole = ap (λ r. (r, (create_body input env w).1)) e in
    let (o, w1, e1, h1) = >>=-eq-ok (query (insert_order input)) announce env w whole in
    let (x, w2, e2, h2) =
      >>=-eq-ok (enqueue_outbox (first_entry o.id)) (λ _. pure (created o)) env w1 h1 in
    let (f1, _) = query-eq-ok (insert_order input) env w e1 in
    let (f2, _) = query-eq-ok (insert_outbox (first_entry o.id)) env w1 e2 in
    let same : w2 ≡ (create_body input env w).1 = cc h2 in
    let returned : created o ≡ c = cc h2 in
    subst (λ v. OrderCreated input c w.store v.store) same
      (subst (λ x. OrderCreated input x w.store w2.store) returned
        (inserts-OrderCreated input _ _ w.store w1.store w2.store f1 f2))

create_body-Silent : (input : CreateOrderInput) → Silent (create_body input)
unfolding create_body enqueue_outbox
create_body-Silent input =
    >>=-Silent (query (insert_order input)) announce (query-Silent (insert_order input)) λ o.
      >>=-Silent (enqueue_outbox (first_entry o.id)) (λ _. pure (created o))
        (query-Silent (insert_outbox (first_entry o.id))) (λ _ env w. refl)

-- What a request with a parsed body does: nothing, or it writes both rows; if it resolves, it has
-- written them and returns the order that it saved.
abbrev pub Creates : CreateOrderInput → World → Result CreatedOrder × World → Type 0
Creates input w (r, u) =
    ((u.store ≡ w.store) ⊎ ((c : CreatedOrder) × OrderCreated input c w.store u.store))
    × ((c : CreatedOrder) → r ≡ ok c → OrderCreated input c w.store u.store)
    × (u.delivered ≡ w.delivered)

transaction-Creates :
    (input : CreateOrderInput) (env : Env) (w : World)
    → Creates input w (transaction (create_body input) env w)
transaction-Creates input env w =
    let (cases, sent) = transaction-store (create_body input) env w in
    (
      elim cases [
        | inl e ↦ inl e
        | inr (c, e, e') ↦ inr (c, rw e' (create_body-OrderCreated input env w e))
      ],
      (λ c h.
          let (e, e') = transaction-eq-ok (create_body input) env w h in
          rw e' (create_body-OrderCreated input env w e)),
      sent ∙ create_body-Silent input env w,
    )

-- Under any failures, `create` writes both rows of a valid body or neither; if it resolves, it has
-- written them and returns the order that it saved. On a bad body it gives the error of the parser
-- and changes nothing.
pub create-Creates :
    (js : JsNumber) (body : CreateOrderBody js) (env : Env) (w : World)
    → ((input : CreateOrderInput)
        → parse_create_order js body ≡ ok input
        → Creates input w (create js body env w))
      × ((e : Error) → parse_create_order js body ≡ err e → create js body env w ≡ (err e, w))
unfolding create
create-Creates js body env w = ((λ input h. rw h (transaction-Creates input env w)), (λ e h. rw h))
