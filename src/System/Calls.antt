-- ===== src/System/Calls.antt =====
-- The facts over each call of an instance, under any environment.
use order_outbox_lab.Common.{
  ◌≡◌, refl, sym, inl, inr, ◌⊎◌, Bool, true, false, ℕ, List, ◌∷◌, contains, without,
  contains-without, contains-cons, arith, subst, Text,
}
use order_outbox_lab.Pipeline.{StageStatus}
use order_outbox_lab.Database.{OutboxEntity, Store}
use order_outbox_lab.Database.Query.{Sorter}
use order_outbox_lab.Frames.{Attempt, Attempt-discrete}
use order_outbox_lab.Effects.{Env, World, Error, Result, ok, err, query}
use order_outbox_lab.Orders.Validation.{
  JsNumber, CreateOrderBody, CreateOrderInput, parse_create_order,
}
use order_outbox_lab.Orders.{CreatedOrder, create}
use order_outbox_lab.Orders.Creation.{Creates, create-Creates, OrderCreated}
use order_outbox_lab.Outbox.Relay.{claim_and_emit}
use order_outbox_lab.Outbox.Relay.Delivery.{
  ids, Relayed, untouched, emitted, relayed, claim_and_emit-Relayed,
}
use order_outbox_lab.Stages.Runner.{key_of, complete, fail}
use order_outbox_lab.Stages.Runner.Claims.{Recorded, complete-store}
use order_outbox_lab.Stages.Runner.Outcomes.{fail-store}
use order_outbox_lab.Status.{recompute, fail_order}
use order_outbox_lab.Status.Settling.{Kept, recompute-Kept, fail-Kept}
use order_outbox_lab.System.{joined}
use order_outbox_lab.System.Facts.{Inv, IsDue, RowsDue}
use order_outbox_lab.System.Claiming.{Inv-fewer, claimed-Inv, finished-Inv}
use order_outbox_lab.System.Failing.{failed-Inv}
use order_outbox_lab.System.Recording.{FailureRecorded-Failed}
use order_outbox_lab.System.Relaying.{
  Inv-outbox, RowsDue-mark_rows, emitted-IsDue, RowsDue-claim_rows,
}

pub Result-cases :
    {A : Type 0} (r : Result A) → ((a : A) × (r ≡ ok a)) ⊎ ((e : Error) × (r ≡ err e))
Result-cases (ok a) = inl (a, refl)
Result-cases (err e) = inr (e, refl)

module _ (w : World) {running : List Attempt} (inv : Inv w.store w.delivered running) where
  abbrev pub After : World → List Attempt → Type 0
  After u now_running = Inv u.store u.delivered now_running

  moved :
      (u : World) (s' : Store) (now_running : List Attempt)
      → u.store ≡ s'
      → u.delivered ≡ w.delivered
      → Inv s' w.delivered now_running
      → After u now_running
  moved u s' now_running e d h = rw (e, d) h

  pub fewer : (a : Attempt) → After w (without Attempt-discrete a running)
  fewer a =
      Inv-fewer (without Attempt-discrete a running)
        (λ b h. ground (arith, contains-without Attempt-discrete a b running)) inv

  Inv-Relayed :
      (rows : List OutboxEntity) (u : World)
      → RowsDue w.store rows
      → Relayed rows w.store w.delivered u
      → After u running
  Inv-Relayed rows u due (untouched e d) = moved u w.store running e d inv
  Inv-Relayed rows u due (emitted e d) =
      rw (e, d)
        (Inv-outbox inv refl refl inv.rows_due
          (emitted-IsDue w.store rows w.delivered due inv.delivered_due))
  Inv-Relayed rows u due (relayed at now e d) =
      rw (e, d)
        (Inv-outbox inv refl refl
          (RowsDue-mark_rows w.store (ids rows) at now w.store.outbox inv.rows_due)
          (emitted-IsDue w.store rows w.delivered due inv.delivered_due))

  -- An order and its untagged row: all three stages are due for their first attempt.
  Inv-OrderCreated :
      {input : CreateOrderInput} {c : CreatedOrder} {s' : Store}
      → OrderCreated input c w.store s'
      → Inv s' w.delivered running
  Inv-OrderCreated o =
      subst (λ x. Inv x w.delivered running) (sym o.after)
        (Inv-outbox inv refl refl (omega arith, inv.rows_due) inv.delivered_due)

  Inv-Creates :
      (input : CreateOrderInput) (r : Result CreatedOrder × World)
      → Creates input w r
      → After r.1 running
  Inv-Creates input r (inl same, _, sent) = moved r.1 w.store running same sent inv
  Inv-Creates input r (inr (c, o), _, sent) =
      moved r.1 r.1.store running refl sent (Inv-OrderCreated o)

  pub create-After :
      (js : JsNumber) (body : CreateOrderBody js) (env : Env)
      → After (create js body env w).1 running
  create-After js body env = elim (Result-cases (parse_create_order js body)) [
    | inl (input, e) ↦
        Inv-Creates input (create js body env w) ((create-Creates js body env w).0 input e)
    | inr (x, e) ↦ rw ((create-Creates js body env w).1 x e) inv
  ]

  -- A claim: with the row in place the attempt is in progress, otherwise nothing has changed but
  -- perhaps the row.
  pub joined-After :
      (a : Attempt) (r : Result Bool × World)
      → IsDue w.store a
      → Recorded (key_of a StageStatus.started) w r
      → After (joined a running r).world (joined a running r).running
  joined-After a (ok true, u) due (_, t, _, d) =
      let l = t refl in
      moved u _ (a ∷ running) l.after d (claimed-Inv inv a l.detail l.stamp due l.free)
  joined-After a (ok false, u) due (_, _, f, d) = moved u w.store running (f refl).0 d inv
  joined-After a (err e, u) due (inl same, _, _, d) = moved u w.store running same d inv
  joined-After a (err e, u) due (inr l, _, _, d) = moved u _ running l.after d (
      Inv-fewer running (λ b. contains-cons Attempt-discrete b a running)
        (claimed-Inv inv a l.detail l.stamp due l.free))

  pub complete-After :
      (a : Attempt) (detail : Text) (env : Env)
      → contains Attempt-discrete a running ≡ true
      → After (complete a detail env w).1 (without Attempt-discrete a running)
  complete-After a detail env held =
      let u = (complete a detail env w).1 in
      let (cases, d) = complete-store a detail env w in
      elim cases [
        | inl e ↦ moved u w.store (without Attempt-discrete a running) e d (fewer a)
        | inr l ↦
            moved u _ (without Attempt-discrete a running) l.after d
              (finished-Inv inv a l.detail l.stamp held)
      ]

  pub fail-After :
      (a : Attempt) (error : Text) (env : Env)
      → contains Attempt-discrete a running ≡ true
      → After (fail a error env w).1 (without Attempt-discrete a running)
  fail-After a error env held =
      let u = (fail a error env w).1 in
      let (cases, _, d) = fail-store a error env w in
      elim cases [
        | inl e ↦ moved u w.store (without Attempt-discrete a running) e d (fewer a)
        | inr (x, r) ↦
            let (f, rows) = FailureRecorded-Failed inv a held r in
            moved u u.store (without Attempt-discrete a running) refl d (failed-Inv f inv held rows)
      ]

  pub poll-After :
      (sorter : Sorter) (locked : ℕ → Bool) (env : Env)
      → After (claim_and_emit sorter locked env w).1 running
  poll-After sorter locked env =
      Inv-Relayed _ (claim_and_emit sorter locked env w).1
        (RowsDue-claim_rows w.store sorter locked (env.stamp w.calls).now w.store.outbox
          inv.rows_due)
        (claim_and_emit-Relayed sorter locked env w).0

  only_orders : (u : World) → Kept w u → After u running
  only_orders u (outbox, events, retries, d) = rw d (
      Inv-outbox inv events retries (subst (RowsDue w.store) (sym outbox) inv.rows_due)
        inv.delivered_due)

  pub resume-After : (id : ℕ) (env : Env) → After (query (fail_order id) env w).1 running
  resume-After id env = only_orders (query (fail_order id) env w).1 (fail-Kept id env w)

  pub recompute-After : (id : ℕ) (env : Env) → After (recompute id env w).1 running
  recompute-After id env = only_orders (recompute id env w).1 (recompute-Kept id env w)
