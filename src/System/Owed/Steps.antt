-- ===== src/System/Owed/Steps.antt =====
-- What the outbox owes after the calls that neither open an order nor count a failure.
use order_outbox_lab.Common.{
  ℕ, ◌≡◌, refl, sym, ap, subst, ◌∙◌, inl, inr, Bool, true, false, List, [], ◌∷◌, ◌++◌,
  contains-append_left, contains-append_right, arith, Text,
}
use order_outbox_lab.Pipeline.{OrderStatus, StageStatus}
use order_outbox_lab.Database.{OrderEntity, OutboxEntity, Store, EventKey, has_order}
use order_outbox_lab.Database.Query.{Sorter}
use order_outbox_lab.Frames.{Attempt, Attempt-discrete}
use order_outbox_lab.Effects.{Env, World, Result, ok, err, query, then_run}
use order_outbox_lab.Effects.Laws.{query-store}
use order_outbox_lab.Outbox.{claim_rows}
use order_outbox_lab.Outbox.Relay.{emissions, claim_and_emit}
use order_outbox_lab.Outbox.Relay.Delivery.{
  Relayed, untouched, emitted, relayed, marked, ids, claim_and_emit-Relayed,
}
use order_outbox_lab.Stages.Runner.{key_of, complete}
use order_outbox_lab.Stages.Runner.Claims.{Recorded, complete-store}
use order_outbox_lab.Stages.Statements.Events.{Logged}
use order_outbox_lab.Status.{
  all_completed, has_dead_letter, settle_rows, fulfil_order, fail_order, recompute,
}
use order_outbox_lab.Status.Settling.{Kept, recompute-Kept, fail-Kept}
use order_outbox_lab.System.{joined}
use order_outbox_lab.System.Owed.{Covered, UniqueRows, Owed}
use order_outbox_lab.System.Owed.Marking.{queued-claimed, UniqueRows-mark_rows}

-- The same orders and counters; no attempt loses its row or its delivery.
pub record Carried (s s' : Store) (delivered delivered' : List Attempt) : Type 0 where
  pub same_orders : (id : ℕ) → has_order id s'.orders ≡ has_order id s.orders
  pub same_retries : s'.stage_retries ≡ s.stage_retries
  pub still_unique : UniqueRows s.outbox → UniqueRows s'.outbox
  pub still_covered :
      UniqueRows s.outbox
      → (a : Attempt) → Covered s.outbox delivered a
      → Covered s'.outbox delivered' a

module _ {s s' : Store} {delivered delivered' : List Attempt} where
  pub Owed-Carried : Carried s s' delivered delivered' → Owed s delivered → Owed s' delivered'
  Owed-Carried c o = record {
    known = λ k h. ground (arith, c.same_orders k.order_id, c.same_retries, o.known k);
    unique_rows = c.still_unique o.unique_rows;
    covered = λ a r.
        c.still_covered o.unique_rows a
          (o.covered a (ground (arith, c.same_orders a.order_id, c.same_retries, r)));
  }

Carried-outbox :
    (s s' : Store) (delivered delivered' : List Attempt)
    → ((id : ℕ) → has_order id s'.orders ≡ has_order id s.orders)
    → s'.stage_retries ≡ s.stage_retries
    → s'.outbox ≡ s.outbox
    → delivered' ≡ delivered
    → Carried s s' delivered delivered'
Carried-outbox s s' delivered delivered' o r x d = record {
  same_orders = o;
  same_retries = r;
  still_unique = λ u. rw x u;
  still_covered = λ u a c. rw (x, d) c;
}

pub Carried-same :
    (s s' : Store) (delivered delivered' : List Attempt)
    → s' ≡ s
    → delivered' ≡ delivered
    → Carried s s' delivered delivered'
Carried-same s s' delivered delivered' e d =
    Carried-outbox s s' delivered delivered' (λ id. ap (λ x. has_order id x.orders) e)
      (ap (λ x. x.stage_retries) e) (ap (λ x. x.outbox) e) d

Carried-Logged :
    {k : EventKey} (s s' : Store) (delivered delivered' : List Attempt)
    → Logged k s s'
    → delivered' ≡ delivered
    → Carried s s' delivered delivered'
Carried-Logged s s' delivered delivered' l d =
    Carried-outbox s s' delivered delivered' (λ id. ap (λ x. has_order id x.orders) l.after)
      (ap (λ x. x.stage_retries) l.after) (ap (λ x. x.outbox) l.after) d

-- More deliveries.
pub emitted-Carried :
    (s s' : Store) (rows : List OutboxEntity) (delivered : List Attempt)
    → s' ≡ s
    → Carried s s' delivered (emissions rows ++ delivered)
emitted-Carried s s' rows delivered e = record {
  same_orders = λ id. ap (λ x. has_order id x.orders) e;
  same_retries = ap (λ x. x.stage_retries) e;
  still_unique = λ u. rw e u;
  still_covered = λ u a c.
      ground (arith, e, c, contains-append_right Attempt-discrete a (emissions rows) delivered);
}

module _ (sorter : Sorter) (locked : ℕ → Bool) (now : ℕ) (s : Store)
    (delivered : List Attempt) where
  abbrev batch : List OutboxEntity
  batch = claim_rows sorter locked now s.outbox

  marked-Carried :
      (at now' : ℕ) (s' : Store)
      → s' ≡ marked batch at now' s
      → Carried s s' delivered (emissions batch ++ delivered)
  marked-Carried at now' s' e =
      subst (λ x. Carried s x delivered (emissions batch ++ delivered)) (sym e)
        (record {
          same_orders = λ id. refl;
          same_retries = refl;
          still_unique = UniqueRows-mark_rows (ids batch) at now' s.outbox;
          still_covered = λ u a c. elim c [
            | inl q ↦ elim (queued-claimed sorter locked now at now' s.outbox u a q) [
              | inl open_row ↦ inl open_row
              | inr sent ↦
                  inr (contains-append_left Attempt-discrete a (emissions batch) delivered sent)
            ]
            | inr d ↦ inr (contains-append_right Attempt-discrete a (emissions batch) delivered d)
          ];
        })

  Relayed-Carried :
      (u : World) → Relayed batch s delivered u → Carried s u.store delivered u.delivered
  Relayed-Carried u (untouched e d) = Carried-same _ _ _ _ e d
  Relayed-Carried u (emitted e d) =
      subst (Carried s u.store delivered) (sym d) (emitted-Carried s u.store batch delivered e)
  Relayed-Carried u (relayed at now' e d) =
      subst (Carried s u.store delivered) (sym d) (marked-Carried at now' u.store e)

has_order-settle_rows :
    (j id : ℕ) (holds : Bool) (to : OrderStatus) (now : ℕ) (orders : List OrderEntity)
    → has_order j (settle_rows id holds to now orders) ≡ has_order j orders
unfolding has_order settle_rows
has_order-settle_rows j id holds to now [] = refl
has_order-settle_rows j id holds to now (o ∷ os) =
    ground (arith, has_order-settle_rows j id holds to now os)

fulfil-orders :
    (id j : ℕ) (env : Env) (w : World)
    → has_order j (query (fulfil_order id) env w).1.store.orders ≡ has_order j w.store.orders
unfolding fulfil_order
fulfil-orders id j env w = elim (query-store (fulfil_order id) env w).0 [
  | inl e ↦ ap (λ x. has_order j x.orders) e
  | inr (x, e) ↦ ground (
    arith,
    e,
    has_order-settle_rows j id (all_completed id w.store.stage_events) OrderStatus.fulfilled
        (env.stamp w.calls).now w.store.orders,
  )
]

fail-orders :
    (id j : ℕ) (env : Env) (w : World)
    → has_order j (query (fail_order id) env w).1.store.orders ≡ has_order j w.store.orders
unfolding fail_order
fail-orders id j env w = elim (query-store (fail_order id) env w).0 [
  | inl e ↦ ap (λ x. has_order j x.orders) e
  | inr (x, e) ↦ ground (
    arith,
    e,
    has_order-settle_rows j id (has_dead_letter id w.store.stage_retries) OrderStatus.failed
        (env.stamp w.calls).now w.store.orders,
  )
]

then-orders :
    (id j : ℕ) (env : Env) (r : Result (Unit {0}) × World)
    → has_order j (then_run env (λ _. query (fail_order id)) r).1.store.orders
      ≡ has_order j r.1.store.orders
then-orders id j env (ok x, v) = fail-orders id j env v
then-orders id j env (err e, v) = refl

recompute-orders :
    (id j : ℕ) (env : Env) (w : World)
    → has_order j (recompute id env w).1.store.orders ≡ has_order j w.store.orders
unfolding recompute
recompute-orders id j env w =
    then-orders id j env (query (fulfil_order id) env w) ∙ fulfil-orders id j env w

-- One call, from the world `w`.
module _ (w : World) where
  abbrev pub CarriedTo : World → Type 0
  CarriedTo u = Carried w.store u.store w.delivered u.delivered

  Kept-Carried :
      (u : World)
      → ((j : ℕ) → has_order j u.store.orders ≡ has_order j w.store.orders)
      → Kept w u
      → CarriedTo u
  Kept-Carried u o (outbox, _, retries, d) = Carried-outbox _ _ _ _ o retries outbox d

  pub recompute-Carried : (id : ℕ) (env : Env) → CarriedTo (recompute id env w).1
  recompute-Carried id env =
      Kept-Carried (recompute id env w).1 (λ j. recompute-orders id j env w)
        (recompute-Kept id env w)

  pub resume-Carried : (id : ℕ) (env : Env) → CarriedTo (query (fail_order id) env w).1
  resume-Carried id env =
      Kept-Carried (query (fail_order id) env w).1 (λ j. fail-orders id j env w)
        (fail-Kept id env w)

  pub poll-Carried :
      (sorter : Sorter) (locked : ℕ → Bool) (env : Env)
      → CarriedTo (claim_and_emit sorter locked env w).1
  poll-Carried sorter locked env =
      Relayed-Carried sorter locked (env.stamp w.calls).now w.store w.delivered _
        (claim_and_emit-Relayed sorter locked env w).0

  pub joined-Carried :
      (a : Attempt) (running : List Attempt) (r : Result Bool × World)
      → Recorded (key_of a StageStatus.started) w r
      → CarriedTo (joined a running r).world
  joined-Carried a running (ok true, u) (_, t, _, d) = Carried-Logged _ _ _ _ (t refl) d
  joined-Carried a running (ok false, u) (_, _, f, d) = Carried-same _ _ _ _ (f refl).0 d
  joined-Carried a running (err e, u) (inl same, _, _, d) = Carried-same _ _ _ _ same d
  joined-Carried a running (err e, u) (inr l, _, _, d) = Carried-Logged _ _ _ _ l d

  pub complete-Carried :
      (a : Attempt) (detail : Text) (env : Env) → CarriedTo (complete a detail env w).1
  complete-Carried a detail env =
      let (cases, d) = complete-store a detail env w in
      elim cases [ inl same ↦ Carried-same _ _ _ _ same d | inr l ↦ Carried-Logged _ _ _ _ l d ]
