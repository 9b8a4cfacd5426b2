-- ===== src/System/Changes.antt =====
-- The four ways in which a step may change the log of stage events and the retry counters.
use order_outbox_lab.Common.{◌≡◌, refl, ap, inl, inr, Bool, true, false, List, contains}
use order_outbox_lab.Pipeline.{StageStatus}
use order_outbox_lab.Database.{OutboxEntity, Store}
use order_outbox_lab.Database.Query.{Sorter}
use order_outbox_lab.Frames.{Attempt, Attempt-discrete}
use order_outbox_lab.Effects.{World, Result, ok, err, query}
use order_outbox_lab.Orders.Validation.{JsNumber, CreateOrderInput, parse_create_order}
use order_outbox_lab.Orders.{CreatedOrder, create}
use order_outbox_lab.Orders.Creation.{Creates, create-Creates}
use order_outbox_lab.Outbox.Relay.Delivery.{
  Relayed, untouched, emitted, relayed, claim_and_emit-Relayed,
}
use order_outbox_lab.Stages.Statements.Events.{Logged}
use order_outbox_lab.Stages.Runner.{key_of, claim}
use order_outbox_lab.Stages.Runner.Claims.{Recorded, claim-Recorded, complete-store}
use order_outbox_lab.Stages.Runner.Outcomes.{fail-store}
use order_outbox_lab.Status.{recompute, fail_order}
use order_outbox_lab.Status.Settling.{Kept, recompute-Kept, fail-Kept}
use order_outbox_lab.System.{
  System, Step, creates, polls, claims, completes, fails, recomputes, resumes, crashes, joined,
}
use order_outbox_lab.System.Facts.{IsDue}
use order_outbox_lab.System.Calls.{Result-cases}
use order_outbox_lab.System.Failing.{Failed}
use order_outbox_lab.System.Invariant.{Holds}
use order_outbox_lab.System.Recording.{FailureRecorded-Failed}

pub data Change (s s' : Store) (running : List Attempt) : Type 0 where
  unchanged :
      s'.stage_events ≡ s.stage_events → s'.stage_retries ≡ s.stage_retries → Change s s' running
  started :
      (a : Attempt) → IsDue s a → Logged (key_of a StageStatus.started) s s' → Change s s' running
  completed :
      (a : Attempt)
      → contains Attempt-discrete a running ≡ true
      → Logged (key_of a StageStatus.completed) s s'
      → Change s s' running
  failed :
      (a : Attempt)
      → contains Attempt-discrete a running ≡ true
      → Failed a s s'
      → Change s s' running

module _ (w : World) (running : List Attempt) where
  abbrev pub ChangeTo : World → Type 0
  ChangeTo u = Change w.store u.store running

  same_store : (u : World) → u.store ≡ w.store → ChangeTo u
  same_store u e = unchanged (ap (λ s. s.stage_events) e) (ap (λ s. s.stage_retries) e)

  Creates-Change :
      (input : CreateOrderInput) (r : Result CreatedOrder × World)
      → Creates input w r
      → ChangeTo r.1
  Creates-Change input r (inl same, _, _) = same_store r.1 same
  Creates-Change input r (inr (c, o), _, _) =
      unchanged (ap (λ s. s.stage_events) o.after) (ap (λ s. s.stage_retries) o.after)

  Relayed-Change :
      (rows : List OutboxEntity) (u : World) → Relayed rows w.store w.delivered u → ChangeTo u
  Relayed-Change rows u (untouched e d) = same_store u e
  Relayed-Change rows u (emitted e d) = same_store u e
  Relayed-Change rows u (relayed at now e d) =
      unchanged (ap (λ s. s.stage_events) e) (ap (λ s. s.stage_retries) e)

  joined-Change :
      (a : Attempt) (r : Result Bool × World)
      → IsDue w.store a
      → Recorded (key_of a StageStatus.started) w r
      → ChangeTo (joined a running r).world
  joined-Change a (ok true, u) due (_, t, _, _) = started a due (t refl)
  joined-Change a (ok false, u) due (_, _, f, _) = same_store u (f refl).0
  joined-Change a (err e, u) due (inl same, _, _, _) = same_store u same
  joined-Change a (err e, u) due (inr l, _, _, _) = started a due l

  Kept-Change : (u : World) → Kept w u → ChangeTo u
  Kept-Change u (_, events, retries, _) = unchanged events retries

module _ {sorter : Sorter} {js : JsNumber} where
  pub Step-Change :
      {s t : System} → Step sorter js s t → Holds s → Change s.world.store t.world.store s.running
  Step-Change (creates s env body) h = elim (Result-cases (parse_create_order js body)) [
    | inl (input, e) ↦
        Creates-Change s.world s.running input (create js body env s.world)
          ((create-Creates js body env s.world).0 input e)
    | inr (x, e) ↦ rw ((create-Creates js body env s.world).1 x e) (unchanged refl refl)
  ]
  Step-Change (polls s env locked) h =
      Relayed-Change s.world s.running _ _ (claim_and_emit-Relayed sorter locked env s.world).0
  Step-Change (claims s env a d) h =
      joined-Change s.world s.running a (claim a env s.world) (h.delivered_due a d)
        (claim-Recorded a env s.world)
  Step-Change (completes s env a detail held) h = elim (complete-store a detail env s.world).0 [
    | inl e ↦ unchanged (ap (λ x. x.stage_events) e) (ap (λ x. x.stage_retries) e)
    | inr l ↦ completed a held l
  ]
  Step-Change (fails s env a error held) h = elim (fail-store a error env s.world).0 [
    | inl e ↦ unchanged (ap (λ x. x.stage_events) e) (ap (λ x. x.stage_retries) e)
    | inr (d, r) ↦ failed a held (FailureRecorded-Failed h a held r).0
  ]
  Step-Change (recomputes s env id) h =
      Kept-Change s.world s.running (recompute id env s.world).1 (recompute-Kept id env s.world)
  Step-Change (resumes s env id) h =
      Kept-Change s.world s.running (query (fail_order id) env s.world).1 (fail-Kept id env s.world)
  Step-Change (crashes s a) h = unchanged refl refl
