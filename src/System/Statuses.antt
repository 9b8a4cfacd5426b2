-- ===== src/System/Statuses.antt =====
-- What each step does to the statuses of the orders and to the facts that they rest on.
use order_outbox_lab.Common.{
  Text, Bool-cases, ==_iff, ◌≡◌, refl, sym, ap, subst, inl, inr, ℕ, Bool, true, false, List, [],
  ◌∷◌, none, some, contains, ◌==◌, if◌then◌else◌, arith,
}
use order_outbox_lab.Pipeline.{OrderStatus, StageStatus}
use order_outbox_lab.Database.{OrderEntity, OutboxEntity, Store, EventKey, RetryKey, has_order}
use order_outbox_lab.Database.Query.{Sorter}
use order_outbox_lab.Frames.{Attempt, Attempt-discrete}
use order_outbox_lab.Effects.{Env, World, Result, ok, err, query}
use order_outbox_lab.Orders.{CreatedOrder, order_row, create}
use order_outbox_lab.Orders.Validation.{
  JsNumber, CreateOrderBody, CreateOrderInput, parse_create_order,
}
use order_outbox_lab.Orders.Creation.{create-Creates, OrderCreated}
use order_outbox_lab.Outbox.{insert_outbox}
use order_outbox_lab.Outbox.Relay.Delivery.{
  Relayed, untouched, emitted, relayed, claim_and_emit-Relayed,
}
use order_outbox_lab.Stages.{RetryDecision}
use order_outbox_lab.Stages.Statements.{has_event, insert_event, upsert_retry, dead_letter}
use order_outbox_lab.Stages.Statements.Counters.{retry_dead}
use order_outbox_lab.Stages.Statements.Events.{Logged, has_event-cons}
use order_outbox_lab.Stages.Runner.{key_of, claim, complete, fail}
use order_outbox_lab.Stages.Runner.Outcomes.{FailureRecorded, fail-store}
use order_outbox_lab.Stages.Runner.Claims.{Recorded, claim-Recorded, complete-store}
use order_outbox_lab.Status.{recompute, fail_order}
use order_outbox_lab.Status.Settling.{status_of, recompute-Kept, fail-Kept}
use order_outbox_lab.Status.Moves.{
  StatusMove, stays, opens, recompute-StatusMove, fail_order-StatusMove,
}
use order_outbox_lab.System.{
  System, joined, Step, creates, polls, claims, completes, fails, recomputes, resumes, crashes,
}
use order_outbox_lab.System.Facts.{Inv}
use order_outbox_lab.System.Failing.{Failed}
use order_outbox_lab.System.Recording.{FailureRecorded-Failed}
use order_outbox_lab.System.Calls.{Result-cases}
use order_outbox_lab.System.Invariant.{Holds}

-- Events and dead letters stay, and statuses move as `StatusMove` allows.
pub record Moved (s s' : Store) : Type 0 where
  pub events_stay :
      (k : EventKey) → has_event k s.stage_events ≡ true → has_event k s'.stage_events ≡ true
  pub dead_stay :
      (k : RetryKey) → retry_dead k s.stage_retries ≡ true → retry_dead k s'.stage_retries ≡ true
  pub status : (j : ℕ) → StatusMove j s (status_of j s.orders) (status_of j s'.orders)

pub Moved-refl : (s : Store) → Moved s s
Moved-refl s = record { events_stay = λ k h. h; dead_stay = λ k h. h; status = λ j. stays refl }

Moved-same : (s s' : Store) → s' ≡ s → Moved s s'
Moved-same s s' e = subst (Moved s) (sym e) (Moved-refl s)

-- Only the outbox differs.
Moved-outbox :
    (s s' : Store)
    → s'.orders ≡ s.orders
    → s'.stage_events ≡ s.stage_events
    → s'.stage_retries ≡ s.stage_retries
    → Moved s s'
Moved-outbox s s' o e r = record {
  events_stay = λ k h. rw e h;
  dead_stay = λ k h. rw r h;
  status = λ j. stays (ap (status_of j) o);
}

Moved-Logged : (k : EventKey) (s s' : Store) → Logged k s s' → Moved s s'
Moved-Logged k s s' l = subst (Moved s) (sym l.after) (record {
  events_stay = λ j h. ground (arith, has_event-cons j k l.detail l.stamp s.stage_events);
  dead_stay = λ j h. h;
  status = λ j. stays refl;
})

status_of-fresh :
    (id : ℕ) (orders : List OrderEntity) → has_order id orders ≡ false → status_of id orders ≡ none
unfolding status_of has_order
status_of-fresh id [] h = refl
status_of-fresh id (o ∷ os) h = ground (arith, status_of-fresh id os)

status_of-cons :
    (j : ℕ) (o : OrderEntity) (orders : List OrderEntity)
    → status_of j (o ∷ orders) ≡ (if o.id == j then some o.status else status_of j orders)
unfolding status_of
status_of-cons j o orders = refl

open_order-StatusMove :
    (j : ℕ) (s : Store) (o : OrderEntity)
    → o.status ≡ OrderStatus.pending
    → has_order o.id s.orders ≡ false
    → StatusMove j s (status_of j s.orders) (status_of j (o ∷ s.orders))
open_order-StatusMove j s o pending fresh = elim (Bool-cases (o.id == j)) [
  | inl hit ↦
      opens (ground (arith, ==_iff o.id j, status_of-fresh o.id s.orders fresh))
        (ground (arith, status_of-cons j o s.orders))
  | inr miss ↦ stays (ground (arith, status_of-cons j o s.orders))
]

FailureRecorded-orders :
    {a : Attempt} {error : Text} {d : RetryDecision} {s s' : Store}
    → FailureRecorded a error d s s'
    → s'.orders ≡ s.orders
unfolding insert_event upsert_retry dead_letter insert_outbox
FailureRecorded-orders {d = RetryDecision.retry} r = ground (arith, r.event, r.counted, r.last)
FailureRecorded-orders {d = RetryDecision.dead_letter} r =
    ground (arith, r.event, r.counted, r.last)

Moved-OrderCreated :
    {input : CreateOrderInput} {c : CreatedOrder} {s s' : Store}
    → OrderCreated input c s s'
    → Moved s s'
Moved-OrderCreated {input} {s} o = subst (Moved s) (sym o.after) (record {
  events_stay = λ k h. h;
  dead_stay = λ k h. h;
  status = λ j. open_order-StatusMove j s (order_row input o.saved_at) refl o.new_id;
})

create-Moved :
    (js : JsNumber) (body : CreateOrderBody js) (env : Env) (w : World)
    → Moved w.store (create js body env w).1.store
create-Moved js body env w = elim (Result-cases (parse_create_order js body)) [
  | inl (input, e) ↦ elim ((create-Creates js body env w).0 input e).0 [
    | inl same ↦ Moved-same _ _ same
    | inr (c, o) ↦ Moved-OrderCreated o
  ]
  | inr (x, e) ↦ Moved-same _ _ (ap (λ r. r.1.store) ((create-Creates js body env w).1 x e))
]

Relayed-Moved :
    {rows : List OutboxEntity} {s : Store} {before : List Attempt} {u : World}
    → Relayed rows s before u
    → Moved s u.store
Relayed-Moved (untouched e d) = Moved-same _ _ e
Relayed-Moved (emitted e d) = Moved-same _ _ e
Relayed-Moved (relayed at now e d) = subst (Moved _) (sym e) (Moved-outbox _ _ refl refl refl)

joined-Moved :
    (a : Attempt) (running : List Attempt) (w : World) (r : Result Bool × World)
    → Recorded (key_of a StageStatus.started) w r
    → Moved w.store (joined a running r).world.store
joined-Moved a running w (ok true, u) (_, t, _, _) = Moved-Logged _ _ _ (t refl)
joined-Moved a running w (ok false, u) (_, _, f, _) = Moved-same _ _ (f refl).0
joined-Moved a running w (err e, u) (inl same, _, _, _) = Moved-same _ _ same
joined-Moved a running w (err e, u) (inr l, _, _, _) = Moved-Logged _ _ _ l

complete-Moved :
    (a : Attempt) (detail : Text) (env : Env) (w : World)
    → Moved w.store (complete a detail env w).1.store
complete-Moved a detail env w = elim (complete-store a detail env w).0 [
  | inl same ↦ Moved-same _ _ same
  | inr l ↦ Moved-Logged _ _ _ l
]

-- A failure adds its event, and sets the flag of its pair if the counter reaches the cap; a pair
-- that was dead stays so, since its counter was at the cap.
Failed-Moved :
    {a : Attempt} {s s' : Store} {delivered running : List Attempt}
    → Inv s delivered running
    → Failed a s s'
    → s'.orders ≡ s.orders
    → Moved s s'
Failed-Moved inv f o = record {
  events_stay = λ k h. ground (
    arith,
    f.log (record { order_id = k.order_id; stage = k.stage; attempt = k.attempt }) k.status,
  );
  dead_stay = λ k h. ground (arith, f.flag k, inv.dead k);
  status = λ j. stays (ap (status_of j) o);
}

fail-Moved :
    (a : Attempt) (error : Text) (env : Env) (w : World) {running : List Attempt}
    → Inv w.store w.delivered running
    → contains Attempt-discrete a running ≡ true
    → Moved w.store (fail a error env w).1.store
fail-Moved a error env w inv held = elim (fail-store a error env w).0 [
  | inl same ↦ Moved-same _ _ same
  | inr (d, r) ↦ Failed-Moved inv (FailureRecorded-Failed inv a held r).0 (FailureRecorded-orders r)
]

recompute-Moved : (id : ℕ) (env : Env) (w : World) → Moved w.store (recompute id env w).1.store
recompute-Moved id env w =
    let (_, events, retries, _) = recompute-Kept id env w in
    record {
      events_stay = λ k h. rw events h;
      dead_stay = λ k h. rw retries h;
      status = λ j. recompute-StatusMove id j env w;
    }

resume-Moved :
    (id : ℕ) (env : Env) (w : World) → Moved w.store (query (fail_order id) env w).1.store
resume-Moved id env w =
    let (_, events, retries, _) = fail-Kept id env w in
    record {
      events_stay = λ k h. rw events h;
      dead_stay = λ k h. rw retries h;
      status = λ j. fail_order-StatusMove id j env w;
    }

module _ {sorter : Sorter} {js : JsNumber} where
  pub Step-Moved : {s t : System} → Step sorter js s t → Holds s → Moved s.world.store t.world.store
  Step-Moved (creates s env body) h = create-Moved js body env s.world
  Step-Moved (polls s env locked) h =
      Relayed-Moved (claim_and_emit-Relayed sorter locked env s.world).0
  Step-Moved (claims s env a d) h =
      joined-Moved a s.running s.world (claim a env s.world) (claim-Recorded a env s.world)
  Step-Moved (completes s env a detail held) h = complete-Moved a detail env s.world
  Step-Moved (fails s env a error held) h = fail-Moved a error env s.world h held
  Step-Moved (recomputes s env id) h = recompute-Moved id env s.world
  Step-Moved (resumes s env id) h = resume-Moved id env s.world
  Step-Moved (crashes s a) h = Moved-refl s.world.store
