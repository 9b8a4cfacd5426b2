-- ===== src/System/Owed/Kept.antt =====
-- What the outbox owes over the runs of the system.
use order_outbox_lab.Common.{
  ◌≡◌, ◌↔◌, refl, inl, inr, contains, true, Bool-cases, List, [], ◌∷◌, Text, All-contains, arith,
}
use order_outbox_lab.Database.Query.{Sorter}
use order_outbox_lab.Frames.{Attempt, Attempt-discrete}
use order_outbox_lab.Effects.{Env, World, Result}
use order_outbox_lab.Orders.Validation.{
  JsNumber, CreateOrderBody, CreateOrderInput, parse_create_order,
}
use order_outbox_lab.Orders.{CreatedOrder, create}
use order_outbox_lab.Orders.Creation.{Creates, create-Creates}
use order_outbox_lab.Stages.Statements.{retry_count}
use order_outbox_lab.Database.{OutboxEntity, Store, has_order}
use order_outbox_lab.Stages.Runner.{claim, fail}
use order_outbox_lab.Stages.Runner.Claims.{claim-Recorded}
use order_outbox_lab.Stages.Runner.Outcomes.{fail-store}
use order_outbox_lab.System.{
  System, initial, Step, creates, polls, claims, completes, fails, recomputes, resumes, crashes,
  Reach, start, later,
}
use order_outbox_lab.Outbox.Relay.{intended}
use order_outbox_lab.System.Facts.{Inv, IsDue, RowsDue}
use order_outbox_lab.System.Calls.{Result-cases}
use order_outbox_lab.System.Invariant.{Holds, Reach-Holds}
use order_outbox_lab.System.Recording.{FailureRecorded-Failed}
use order_outbox_lab.System.Owed.{causes, queued, Covered, Owed}
use order_outbox_lab.System.Owed.Steps.{
  Owed-Carried, recompute-Carried, resume-Carried, poll-Carried, joined-Carried, complete-Carried,
}
use order_outbox_lab.System.Owed.Failing.{Owed-failed, FailureRecorded-Queued}
use order_outbox_lab.System.Owed.Opening.{Owed-OrderCreated}

-- What an open row causes is due.
pub queued-IsDue :
    (s : Store) (a : Attempt) (rows : List OutboxEntity)
    → RowsDue s rows
    → queued a rows ≡ true
    → IsDue s a
unfolding queued
queued-IsDue s a [] h q = cc
queued-IsDue s a (row ∷ rows) (h, hs) q = elim (Bool-cases (causes a row)) [
  | inl hit ↦ All-contains (IsDue s) Attempt-discrete a (intended row.stage row.payload) h hit
  | inr miss ↦ queued-IsDue s a rows hs (ground arith)
]

abbrev pub Owes : World → Type 0
Owes w = Owed w.store w.delivered

moved : (w u : World) → u.store ≡ w.store → u.delivered ≡ w.delivered → Owes w → Owes u
moved w u e d o = rw (e, d) o

Owes-Creates :
    (w : World) (input : CreateOrderInput) (r : Result CreatedOrder × World)
    → Creates input w r
    → Owes w
    → Owes r.1
Owes-Creates w input r (inl same, _, sent) o = moved w r.1 same sent o
Owes-Creates w input r (inr (c, n), _, sent) o = rw sent (Owed-OrderCreated n o)

create-Owes :
    (w : World) (js : JsNumber) (body : CreateOrderBody js) (env : Env)
    → Owes w
    → Owes (create js body env w).1
create-Owes w js body env o = elim (Result-cases (parse_create_order js body)) [
  | inl (input, e) ↦
      Owes-Creates w input (create js body env w) ((create-Creates js body env w).0 input e) o
  | inr (x, e) ↦ rw ((create-Creates js body env w).1 x e) o
]

fail-Owes :
    (w : World) {running : List Attempt}
    → Inv w.store w.delivered running
    → (a : Attempt) (error : Text) (env : Env) → contains Attempt-discrete a running ≡ true
    → Owes w
    → Owes (fail a error env w).1
fail-Owes w inv a error env held o =
    let u = (fail a error env w).1 in
    let (cases, _, d) = fail-store a error env w in
    elim cases [
      | inl e ↦ moved w u e d o
      | inr (x, r) ↦ rw d (
          Owed-failed (FailureRecorded-Failed inv a held r).0 (FailureRecorded-Queued inv a held r)
            (inv.in_progress a held).next o)
    ]

pub initial-Owes : Owes initial.world
unfolding retry_count has_order
initial-Owes = record { known = λ k h. refl; unique_rows = tt; covered = λ a (h, _, _, _). cc }

module _ {sorter : Sorter} {js : JsNumber} where
  pub Step-Owes : {s t : System} → Step sorter js s t → Holds s → Owes s.world → Owes t.world
  Step-Owes (creates s env body) h o = create-Owes s.world js body env o
  Step-Owes (polls s env locked) h o = Owed-Carried (poll-Carried s.world sorter locked env) o
  Step-Owes (claims s env a d) h o =
      Owed-Carried
        (joined-Carried s.world a s.running (claim a env s.world) (claim-Recorded a env s.world)) o
  Step-Owes (completes s env a detail held) h o =
      Owed-Carried (complete-Carried s.world a detail env) o
  Step-Owes (fails s env a error held) h o = fail-Owes s.world h a error env held o
  Step-Owes (recomputes s env id) h o = Owed-Carried (recompute-Carried s.world id env) o
  Step-Owes (resumes s env id) h o = Owed-Carried (resume-Carried s.world id env) o
  Step-Owes (crashes s a) h o = o

  pub Reach-Owes : {s : System} → Reach sorter js s → Owes s.world
  Reach-Owes start = initial-Owes
  Reach-Owes (later r st) = Step-Owes st (Reach-Holds r) (Reach-Owes r)

  -- In every state that any interleaving of the calls of all instances reaches, with any of their
  -- statements failing and any process dying, no attempt is lost between the transaction that causes
  -- it and its handler, and none is made up: an attempt of an existing order has a number from 1 to
  -- one past the recorded failures of its stage, and within `MAX_RETRIES`, exactly when an
  -- unprocessed and undeleted row of the outbox causes it or it was handed to the handler of its
  -- stage.
  pub IsDue-Covered_iff :
      {s : System}
      → Reach sorter js s
      → (a : Attempt) → has_order a.order_id s.world.store.orders ≡ true
      → IsDue s.world.store a ↔ Covered s.world.store.outbox s.world.delivered a
  IsDue-Covered_iff {s} r a known = (
    (λ (lo, hi, within). (Reach-Owes r).covered a (known, lo, hi, within)),
    (λ c. elim c [
      | inl q ↦ queued-IsDue s.world.store a s.world.store.outbox (Reach-Holds r).rows_due q
      | inr sent ↦ (Reach-Holds r).delivered_due a sent
    ]),
  )
