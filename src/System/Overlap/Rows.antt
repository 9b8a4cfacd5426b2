-- ===== src/System/Overlap/Rows.antt =====
-- The deliveries and the outbox over a step that is no tick.
use order_outbox_lab.Common.{
  ◌≡◌, refl, ap, ◌⊎◌, inl, inr, Bool, true, false, List, ◌∷◌, contains, Text,
}
use order_outbox_lab.Pipeline.{StageStatus}
use order_outbox_lab.Database.{OutboxEntity}
use order_outbox_lab.Database.Query.{Sorter}
use order_outbox_lab.Frames.{Attempt, Attempt-discrete}
use order_outbox_lab.Effects.{Env, World, Result, ok, err, query}
use order_outbox_lab.Orders.Validation.{
  JsNumber, CreateOrderBody, CreateOrderInput, parse_create_order,
}
use order_outbox_lab.Orders.{CreatedOrder, create, first_entry}
use order_outbox_lab.Orders.Creation.{Creates, create-Creates}
use order_outbox_lab.Outbox.{has_row, outbox_row}
use order_outbox_lab.Stages.Runner.{key_of, claim, complete, fail, retry_entry}
use order_outbox_lab.Stages.Runner.Claims.{Recorded, claim-Recorded, complete-store}
use order_outbox_lab.Stages.Runner.Outcomes.{fail-store}
use order_outbox_lab.Status.{recompute, fail_order}
use order_outbox_lab.Status.Settling.{Kept, recompute-Kept, fail-Kept}
use order_outbox_lab.System.{
  System, Step, creates, polls, claims, completes, fails, recomputes, resumes, crashes, joined,
}
use order_outbox_lab.System.Calls.{Result-cases}
use order_outbox_lab.System.Invariant.{Holds}
use order_outbox_lab.System.Owed.Failing.{FailureRecorded-Queued}
use order_outbox_lab.System.Overlap.{is_tick}

-- The outbox, or the outbox and one unprocessed row whose id it did not hold.
abbrev pub Grown : List OutboxEntity → List OutboxEntity → Type 0
Grown rows rows' =
    (rows' ≡ rows)
    ⊎ ((row : OutboxEntity) × (has_row row.id rows ≡ false)
        × (row.processed ≡ false)
        × (rows' ≡ row ∷ rows))

abbrev pub GrownTo : World → World → Type 0
GrownTo w u = Grown w.store.outbox u.store.outbox × (u.delivered ≡ w.delivered)

same_store : (w u : World) → u.store ≡ w.store → u.delivered ≡ w.delivered → GrownTo w u
same_store w u e d = (inl (ap (λ s. s.outbox) e), d)

Creates-Grown :
    (w : World) (input : CreateOrderInput) (r : Result CreatedOrder × World)
    → Creates input w r
    → GrownTo w r.1
Creates-Grown w input r (inl same, _, sent) = same_store w r.1 same sent
Creates-Grown w input r (inr (c, o), _, sent) = (
  inr (
    outbox_row (first_entry o.saved_at.id) o.queued_at,
    o.new_row,
    refl,
    ap (λ s. s.outbox) o.after,
  ),
  sent,
)

create-Grown :
    (w : World) (js : JsNumber) (body : CreateOrderBody js) (env : Env)
    → GrownTo w (create js body env w).1
create-Grown w js body env = elim (Result-cases (parse_create_order js body)) [
  | inl (input, e) ↦
      Creates-Grown w input (create js body env w) ((create-Creates js body env w).0 input e)
  | inr (x, e) ↦ rw ((create-Creates js body env w).1 x e) (inl refl, refl)
]

joined-Grown :
    (w : World) (a : Attempt) (running : List Attempt) (r : Result Bool × World)
    → Recorded (key_of a StageStatus.started) w r
    → GrownTo w (joined a running r).world
joined-Grown w a running (ok true, u) (_, t, _, d) = (inl (ap (λ s. s.outbox) (t refl).after), d)
joined-Grown w a running (ok false, u) (_, _, f, d) = same_store w u (f refl).0 d
joined-Grown w a running (err e, u) (inl same, _, _, d) = same_store w u same d
joined-Grown w a running (err e, u) (inr l, _, _, d) = (inl (ap (λ s. s.outbox) l.after), d)

Kept-Grown : (w u : World) → Kept w u → GrownTo w u
Kept-Grown w u (outbox, _, _, d) = (inl outbox, d)

complete-Grown :
    (w : World) (a : Attempt) (detail : Text) (env : Env) → GrownTo w (complete a detail env w).1
complete-Grown w a detail env =
    let (cases, d) = complete-store a detail env w in
    elim cases [
      | inl same ↦ same_store w (complete a detail env w).1 same d
      | inr l ↦ (inl (ap (λ s. s.outbox) l.after), d)
    ]

fail-Grown :
    (s : System) (a : Attempt) (error : Text) (env : Env)
    → Holds s
    → contains Attempt-discrete a s.running ≡ true
    → GrownTo s.world (fail a error env s.world).1
fail-Grown s a error env h held =
    let (cases, _, d) = fail-store a error env s.world in
    elim cases [
      | inl same ↦ same_store s.world (fail a error env s.world).1 same d
      | inr (x, r) ↦ elim (FailureRecorded-Queued h a held r).queue [
        | inl (_, same) ↦ (inl same, d)
        | inr (t, now, fresh, e) ↦ (inr (outbox_row (retry_entry a now) t, fresh, refl, e), d)
      ]
    ]

module _ {sorter : Sorter} {js : JsNumber} where
  pub Step-Grown :
      {s t : System} (st : Step sorter js s t)
      → is_tick sorter js st ≡ false
      → Holds s
      → GrownTo s.world t.world
  Step-Grown (polls s env locked) none_such h = cc
  Step-Grown (creates s env body) _ h = create-Grown s.world js body env
  Step-Grown (claims s env a d) _ h =
      joined-Grown s.world a s.running (claim a env s.world) (claim-Recorded a env s.world)
  Step-Grown (completes s env a detail held) _ h = complete-Grown s.world a detail env
  Step-Grown (fails s env a error held) _ h = fail-Grown s a error env h held
  Step-Grown (recomputes s env id) _ h =
      Kept-Grown s.world (recompute id env s.world).1 (recompute-Kept id env s.world)
  Step-Grown (resumes s env id) _ h =
      Kept-Grown s.world (query (fail_order id) env s.world).1 (fail-Kept id env s.world)
  Step-Grown (crashes s a) _ h = (inl refl, refl)
