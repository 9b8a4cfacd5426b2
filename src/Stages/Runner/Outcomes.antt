-- ===== src/Stages/Runner/Outcomes.antt =====
-- What the methods of `StageRunner` do to the store, whatever the environment does to their calls.
use order_outbox_lab.Common.{
  ℕ, ◌≡◌, refl, sym, ap, subst, ◌∙◌, ◌⊎◌, inl, inr, Bool, Option, some, Text, arith,
}
use order_outbox_lab.Pipeline.{StageStatus}
use order_outbox_lab.Database.{Store, Stamp}
use order_outbox_lab.Frames.{Attempt}
use order_outbox_lab.Effects.{
  Env, World, Result, ok, err, ◌>>◌, pure, then_run, publish_frame, catching, query, transaction,
}
use order_outbox_lab.Effects.Laws.{
  >>=-eq-ok, query-eq-ok, transaction-store, transaction-eq-ok, Silent, >>=-Silent, query-Silent,
}
use order_outbox_lab.Outbox.{insert_outbox, enqueue_outbox}
use order_outbox_lab.Stages.{RetryDecision, next_action_after_failure}
use order_outbox_lab.Stages.Statements.{insert_event, upsert_retry, dead_letter}
use order_outbox_lab.Stages.Runner.{
  key_of, pair_of, record_event, publish, retry_entry, after_failure, decide, count_failure,
  fail_body, fail,
}

-- Publishing touches neither the store nor the deliveries, and never fails.
pub publish-quiet :
    (a : Attempt) (status : StageStatus) (detail : Option Text) (env : Env) (w : World)
    → ((publish a status detail env w).0 ≡ ok tt)
      × ((publish a status detail env w).1.store ≡ w.store)
      × ((publish a status detail env w).1.delivered ≡ w.delivered)
unfolding publish publish_frame catching
publish-quiet a status detail env w = ground arith

pub publish_then-quiet :
    {A : Type 0} (x : A) (a : Attempt) (status : StageStatus) (detail : Option Text) (env : Env)
    (w : World)
    → let u = (publish a status detail >> pure x) env w in
      (u.0 ≡ ok x) × (u.1.store ≡ w.store) × (u.1.delivered ≡ w.delivered)
publish_then-quiet x a status detail env w = ground (arith, publish-quiet a status detail env w)

-- The last write of the failure transaction.
abbrev pub AfterFailure : Attempt → RetryDecision → Store → Store → Type 0
AfterFailure a RetryDecision.dead_letter s s' =
    (t : Stamp) × (dead_letter (pair_of a) t s ≡ some (tt, s'))
AfterFailure a RetryDecision.retry s s' =
    (t : Stamp) × (now : ℕ) × (insert_outbox (retry_entry a now) t s ≡ some (tt, s'))

-- The three writes of one failure: the event, the counter, and the retry or the dead letter.
pub record FailureRecorded (a : Attempt) (error : Text) (decision : RetryDecision) (s s' : Store)
    : Type 0 where
  pub new_event : Bool
  pub count : ℕ
  pub logged_at : Stamp
  pub counted_at : Stamp
  pub with_event : Store
  pub with_count : Store
  pub event :
      insert_event (key_of a StageStatus.failed) (some error) logged_at s
      ≡ some (new_event, with_event)
  pub counted : upsert_retry (pair_of a) error counted_at with_event ≡ some (count, with_count)
  pub decided : decision ≡ next_action_after_failure count
  pub last : AfterFailure a decision with_count s'

after_failure-eq-ok :
    (a : Attempt) (d : RetryDecision) (env : Env) (w : World) {u : World}
    → after_failure a d env w ≡ (ok tt, u)
    → AfterFailure a d w.store u.store × (u.delivered ≡ w.delivered)
unfolding enqueue_outbox
after_failure-eq-ok a RetryDecision.dead_letter env w h =
    let (e, q) = query-eq-ok (dead_letter (pair_of a)) env w h in ((_, e), q)
after_failure-eq-ok a RetryDecision.retry env w h =
    let (e, q) = query-eq-ok (insert_outbox (retry_entry a (env.clock w.calls))) env w h in
    ((_, _, e), q)

fail_body-eq-ok :
    (a : Attempt) (error : Text) (env : Env) (w : World) {d : RetryDecision} {u : World}
    → fail_body a error env w ≡ (ok d, u)
    → FailureRecorded a error d w.store u.store × (u.delivered ≡ w.delivered)
unfolding fail_body record_event
fail_body-eq-ok a error env w {d = d'} {u} h =
    let (b, w1, e1, h1) =
      >>=-eq-ok (record_event a StageStatus.failed (some error)) (λ _. count_failure a error) env w
        h in
    let (n, w2, e2, h2) = >>=-eq-ok (query (upsert_retry (pair_of a) error)) (decide a) env w1 h1 in
    let d = next_action_after_failure n in
    let (x, w3, e3, h3) = >>=-eq-ok (after_failure a d) (λ _. pure d) env w2 h2 in
    let (f1, q1) = query-eq-ok (insert_event (key_of a StageStatus.failed) (some error)) env w e1 in
    let (f2, q2) = query-eq-ok (upsert_retry (pair_of a) error) env w1 e2 in
    let (f3, q3) = after_failure-eq-ok a d env w2 e3 in
    let same : w3 ≡ u = cc h3 in
    let decided : d ≡ d' = cc h3 in
    let last =
      subst (λ x. AfterFailure a x w2.store u.store) decided
        (subst (λ v. AfterFailure a d w2.store v.store) same f3) in
    (
      record {
        new_event = b;
        count = n;
        logged_at = _;
        counted_at = _;
        with_event = w1.store;
        with_count = w2.store;
        event = f1;
        counted = f2;
        decided = sym decided;
        last = last;
      },
      cc,
    )

after_failure-Silent : (a : Attempt) (d : RetryDecision) → Silent (after_failure a d)
unfolding enqueue_outbox
after_failure-Silent a RetryDecision.dead_letter env w =
    query-Silent (dead_letter (pair_of a)) env w
after_failure-Silent a RetryDecision.retry env w =
    query-Silent (insert_outbox (retry_entry a (env.clock w.calls))) env w

fail_body-Silent : (a : Attempt) (error : Text) → Silent (fail_body a error)
unfolding fail_body record_event
fail_body-Silent a error =
    >>=-Silent (record_event a StageStatus.failed (some error)) (λ _. count_failure a error)
      (query-Silent (insert_event (key_of a StageStatus.failed) (some error)))
      λ _.
        >>=-Silent (query (upsert_retry (pair_of a) error)) (decide a)
          (query-Silent (upsert_retry (pair_of a) error))
          λ n.
            >>=-Silent (after_failure a (next_action_after_failure n))
              (λ _. pure (next_action_after_failure n)) (after_failure-Silent a _) (λ _ env w. refl)

fail_body-recorded :
    (a : Attempt) (error : Text) (env : Env) (w : World) {d : RetryDecision}
    → (fail_body a error env w).0 ≡ ok d
    → FailureRecorded a error d w.store (fail_body a error env w).1.store
fail_body-recorded a error env w e =
    (fail_body-eq-ok a error env w (ap (λ r. (r, (fail_body a error env w).1)) e)).0

-- Publishing after a call changes neither its result nor what it did to the store.
published_after :
    {A : Type 0} (a : Attempt) (status : StageStatus) (detail : Option Text) (env : Env)
    (r : Result A × World)
    → let u = then_run env (λ x. publish a status detail >> pure x) r in
      (u.0 ≡ r.0) × (u.1.store ≡ r.1.store) × (u.1.delivered ≡ r.1.delivered)
published_after a status detail env (ok x, w) = publish_then-quiet x a status detail env w
published_after a status detail env (err e, w) = (refl, refl, refl)

-- The failure transaction, and the frame after it: either nothing is written, or the three writes
-- are. If `fail` returns a decision, they are written and the decision is theirs. It makes no
-- delivery.
pub fail-store :
    (a : Attempt) (error : Text) (env : Env) (w : World)
    → let (r, u) = fail a error env w in
      ((u.store ≡ w.store) ⊎ ((d : RetryDecision) × FailureRecorded a error d w.store u.store))
      × ((d : RetryDecision) → r ≡ ok d → FailureRecorded a error d w.store u.store)
      × (u.delivered ≡ w.delivered)
unfolding fail
fail-store a error env w = (
  elim before [
    | inl e ↦ inl (kept ∙ e)
    | inr (d, e, e') ↦ inr (d, rw (kept, e') (fail_body-recorded a error env w e))
  ],
  λ d h.
      let (e, e') = transaction-eq-ok (fail_body a error) env w (sym same ∙ h) in
      rw (kept, e') (fail_body-recorded a error env w e),
  quiet ∙ sent ∙ fail_body-Silent a error env w,
)
  where
    committed : Result RetryDecision × World
    committed = transaction (fail_body a error) env w

    open (published_after a StageStatus.failed (some error) env committed) use {
      0 as same, 1 as kept, 2 as quiet,
    }
    open (transaction-store (fail_body a error) env w) use {0 as before, 1 as sent}
