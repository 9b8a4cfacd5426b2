-- ===== src/Stages/Runner/Claims.antt =====
-- What claiming and completing an attempt do to the store, and what a second delivery does.
use order_outbox_lab.Common.{
  ◌≡◌, refl, sym, ◌∙◌, ◌⊎◌, inl, inr, Bool, true, false, Option, none, some, Text, arith,
}
use order_outbox_lab.Pipeline.{StageStatus}
use order_outbox_lab.Database.{Store, EventKey}
use order_outbox_lab.Frames.{Attempt}
use order_outbox_lab.Effects.{
  Outcome, Env, World, settle, tick, Result, ok, err, then_run, query, catching,
}
use order_outbox_lab.Stages.{Roll}
use order_outbox_lab.Stages.Statements.{has_event, insert_event}
use order_outbox_lab.Stages.Statements.Events.{Logged, insert_event-eq-some}
use order_outbox_lab.Stages.Runner.{
  key_of, record_event, publish, after_claim, claim, complete, run, attempt,
}
use order_outbox_lab.Stages.Runner.Outcomes.{publish-quiet, publish_then-quiet}

module _ (k : EventKey) (w : World) where
  -- What an insert of the event `k` reports, and what it did.
  abbrev pub Recorded : Result Bool × World → Type 0
  Recorded (r, u) =
      ((u.store ≡ w.store) ⊎ Logged k w.store u.store)
      × (r ≡ ok true → Logged k w.store u.store)
      × (r ≡ ok false → (u.store ≡ w.store) × (has_event k w.store.stage_events ≡ true))
      × (u.delivered ≡ w.delivered)

  settle-Recorded :
      (o : Outcome) (result : Option (Bool × Store))
      → ((b : Bool) (s' : Store)
          → result ≡ some (b, s')
          → ((b ≡ false) × (s' ≡ w.store) × (has_event k w.store.stage_events ≡ true))
            ⊎ ((b ≡ true) × Logged k w.store s'))
      → Recorded (settle o (tick w) result)
  settle-Recorded Outcome.rejected result h = (inl refl, (λ e. cc), (λ e. cc), refl)
  settle-Recorded Outcome.done none h = (inl refl, (λ e. cc), (λ e. cc), refl)
  settle-Recorded Outcome.lost none h = (inl refl, (λ e. cc), (λ e. cc), refl)
  settle-Recorded Outcome.done (some (b, s')) h = elim (h b s' refl) [
    | inl (e, same, taken) ↦ (inl same, (λ q. cc), (λ q. (same, taken)), refl)
    | inr (e, l) ↦ (inr l, (λ q. l), (λ q. cc), refl)
  ]
  settle-Recorded Outcome.lost (some (b, s')) h = elim (h b s' refl) [
    | inl (e, same, taken) ↦ (inl same, (λ q. cc), (λ q. cc), refl)
    | inr (e, l) ↦ (inr l, (λ q. cc), (λ q. cc), refl)
  ]

-- `record` adds the row or leaves the store; what it reports is what it did.
pub record_event-Recorded :
    (a : Attempt) (status : StageStatus) (detail : Option Text) (env : Env) (w : World)
    → Recorded (key_of a status) w (record_event a status detail env w)
unfolding record_event query
record_event-Recorded a status detail env w =
    settle-Recorded (key_of a status) w (env.outcome w.calls) _
      λ b s'. insert_event-eq-some (key_of a status) detail (env.stamp w.calls) w.store s' b

after_claim-Recorded :
    (k : EventKey) (a : Attempt) (env : Env) (w : World) (r : Result Bool × World)
    → Recorded k w r
    → Recorded k w (then_run env (after_claim a) r)
after_claim-Recorded k a env w (ok true, v) (c, t, f, d) =
    let (same, kept, quiet) = publish_then-quiet true a StageStatus.started none env v in
    (
      inr (rw kept (t refl)),
      (λ _. rw kept (t refl)),
      (λ q. let e : ◌≡◌ {A = Result Bool} (ok false) (ok true) = sym q ∙ same in cc e),
      quiet ∙ d,
    )
after_claim-Recorded k a env w (ok false, v) h = h
after_claim-Recorded k a env w (err e, v) h = h

-- `claim` reports true only if it added the `started` row, and false only if the row was there.
pub claim-Recorded :
    (a : Attempt) (env : Env) (w : World)
    → Recorded (key_of a StageStatus.started) w (claim a env w)
unfolding claim
claim-Recorded a env w =
    after_claim-Recorded (key_of a StageStatus.started) a env w _
      (record_event-Recorded a StageStatus.started none env w)

then_publish-store :
    (a : Attempt) (status : StageStatus) (detail : Option Text) (env : Env)
    (r : Result Bool × World)
    → let u = (then_run env (λ _. publish a status detail) r).1 in
      (u.store ≡ r.1.store) × (u.delivered ≡ r.1.delivered)
then_publish-store a status detail env (ok b, v) =
    let (_, kept, quiet) = publish-quiet a status detail env v in (kept, quiet)
then_publish-store a status detail env (err e, v) = (refl, refl)

-- `complete` adds the `completed` row, or leaves the store.
pub complete-store :
    (a : Attempt) (detail : Text) (env : Env) (w : World)
    → let u = (complete a detail env w).1 in
      ((u.store ≡ w.store) ⊎ Logged (key_of a StageStatus.completed) w.store u.store)
      × (u.delivered ≡ w.delivered)
unfolding complete
complete-store a detail env w =
    let (cases, _, _, sent) = record_event-Recorded a StageStatus.completed (some detail) env w in
    let (kept, quiet) =
      then_publish-store a StageStatus.completed (some detail) env
        (record_event a StageStatus.completed (some detail) env w) in
    (elim cases [ inl e ↦ inl (kept ∙ e) | inr l ↦ inr (rw kept l) ], quiet ∙ sent)

-- On a delivery of an attempt that was claimed before, `run` resolves, and writes no row, makes no
-- delivery and sends no frame, whatever the rolls and the environment.
pub run-duplicate :
    (a : Attempt) (delay_roll failure_roll : Roll) (env : Env) (w : World)
    → has_event (key_of a StageStatus.started) w.store.stage_events ≡ true
    → let (r, u) = run a delay_roll failure_roll env w in
      (r ≡ ok tt) × (u.store ≡ w.store) × (u.delivered ≡ w.delivered) × (u.published ≡ w.published)
unfolding run attempt claim record_event catching query insert_event
run-duplicate a delay_roll failure_roll env w h = ground arith
