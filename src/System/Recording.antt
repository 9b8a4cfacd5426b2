-- ===== src/System/Recording.antt =====
-- The three writes of a failure, seen through the log and the counters.
use Prim.Native.Nat.{suc}
use order_outbox_lab.Common.{
  ℕ, ◌+◌, ◌≡◌, ◌≢◌, inl, inr, true, false, List, ◌∷◌, contains, arith, leb, Text, Option, some,
}
use order_outbox_lab.Pipeline.{StageStatus}
use order_outbox_lab.Database.{Store, Stamp, RetryKey}
use order_outbox_lab.Frames.{Attempt, Attempt-discrete}
use order_outbox_lab.Outbox.{insert_outbox, outbox_row}
use order_outbox_lab.Stages.{RetryDecision, max_retries, next_action_after_failure}
use order_outbox_lab.Stages.Statements.{
  has_event, upsert_rows, upsert_retry, retry_count, dead_letter, dead_letter_rows,
}
use order_outbox_lab.Stages.Statements.Counters.{
  retry_dead, retry_count-upsert_rows, retry_dead-upsert_rows, retry_count-dead_letter_rows,
  retry_dead-dead_letter_rows, has_retry-upsert_rows, UniquePairs, UniquePairs-upsert_rows,
  UniquePairs-dead_letter_rows,
}
use order_outbox_lab.Stages.Statements.Events.{
  Logged, UniqueEvents, log_event, insert_event-eq-some,
}
use order_outbox_lab.Stages.Runner.{key_of, pair_of, retry_entry}
use order_outbox_lab.Stages.Runner.Outcomes.{AfterFailure, FailureRecorded}
use order_outbox_lab.System.Facts.{Inv, IsDue, RowsDue, failures, logged}
use order_outbox_lab.System.Claiming.{logged-log_event}
use order_outbox_lab.System.Failing.{Failed, RowsDue-failed}

upsert_retry-eq-some :
    (k : RetryKey) (error : Text) (t : Stamp) (s s' : Store) (n : ℕ)
    → upsert_retry k error t s ≡ some (n, s')
    → (n ≡ retry_count k (upsert_rows k error s.stage_retries))
      × (s' ≡ record s { stage_retries = upsert_rows k error s.stage_retries })
unfolding upsert_retry
upsert_retry-eq-some k error t s s' n h = ground arith

-- After the event and the counter.
abbrev pub counted : Attempt → Option Text → Text → Stamp → Store → Store
counted a detail error t s = record (log_event (key_of a StageStatus.failed) detail t s) {
  stage_retries = upsert_rows (pair_of a) error s.stage_retries;
}

module _ (a : Attempt) (detail : Option Text) (error : Text) (t : Stamp) (s : Store)
    (free : logged s a StageStatus.failed ≡ false) (events : UniqueEvents s.stage_events)
    (pairs : UniquePairs s.stage_retries) where
  retried-Failed :
      (s' : Store) (now : ℕ) (t' : Stamp)
      → leb max_retries (suc (failures s a)) ≡ false
      → retry_dead (pair_of a) s.stage_retries ≡ false
      → s' ≡ record (counted a detail error t s) {
        outbox = outbox_row (retry_entry a now) t' ∷ s.outbox;
      }
      → Failed a s s'
  retried-Failed s' now t' open_end alive e = rw e (record {
    log = logged-log_event a StageStatus.failed detail t s;
    count = λ k. retry_count-upsert_rows k (pair_of a) error s.stage_retries;
    flag = λ k. ground (arith, retry_dead-upsert_rows k (pair_of a) error s.stage_retries);
    unique_events = (free, events);
    unique_pairs = UniquePairs-upsert_rows (pair_of a) error s.stage_retries pairs;
  })

  dead-Failed :
      (s' : Store)
      → leb max_retries (suc (failures s a)) ≡ true
      → s' ≡ record (counted a detail error t s) {
        stage_retries = dead_letter_rows (pair_of a) (counted a detail error t s).stage_retries;
      }
      → Failed a s s'
  dead-Failed s' closed e = rw e (record {
    log = logged-log_event a StageStatus.failed detail t s;
    count = λ k. ground (
      arith,
      retry_count-upsert_rows k (pair_of a) error s.stage_retries,
      retry_count-dead_letter_rows k (pair_of a) (counted a detail error t s).stage_retries,
    );
    flag = λ k. ground (
      arith,
      retry_dead-upsert_rows k (pair_of a) error s.stage_retries,
      retry_dead-dead_letter_rows k (pair_of a) (counted a detail error t s).stage_retries,
      has_retry-upsert_rows (pair_of a) error s.stage_retries,
    );
    unique_events = (free, events);
    unique_pairs =
        UniquePairs-dead_letter_rows (pair_of a) _
          (UniquePairs-upsert_rows (pair_of a) error s.stage_retries pairs);
  })

-- The last write decides by the new counter.
after-Failed :
    (a : Attempt) (detail : Option Text) (error : Text) (t : Stamp) (s s' : Store)
    (d : RetryDecision)
    → d ≡ next_action_after_failure (suc (failures s a))
    → retry_dead (pair_of a) s.stage_retries ≡ leb max_retries (failures s a)
    → a.attempt ≡ suc (failures s a)
    → RowsDue s s.outbox
    → logged s a StageStatus.failed ≡ false
    → UniqueEvents s.stage_events
    → UniquePairs s.stage_retries
    → AfterFailure a d (counted a detail error t s) s'
    → Failed a s s' × RowsDue s' s'.outbox
unfolding next_action_after_failure dead_letter insert_outbox
after-Failed a detail error t s s' RetryDecision.dead_letter e alive next rows free ev pr (t', w) =
    let f = dead-Failed a detail error t s free ev pr s' (ground arith) (ground arith) in
    let same : s'.outbox ≡ s.outbox = ground arith in (f, rw same (RowsDue-failed f s.outbox rows))
after-Failed a detail error t s s' RetryDecision.retry e alive next rows free ev pr (t', now, w) =
    let f =
      retried-Failed a detail error t s free ev pr s' now t' (ground arith) (ground arith)
        (ground arith) in
    let same : s'.outbox ≡ outbox_row (retry_entry a now) t' ∷ s.outbox = ground arith in
    let due : IsDue s' (record a { attempt = a.attempt + 1 }) =
      ground (arith, f.count (pair_of a)) in
    (f, rw same ((due, tt), RowsDue-failed f s.outbox rows))

module _ {s : Store} {delivered running : List Attempt} (inv : Inv s delivered running)
    (a : Attempt) (held : contains Attempt-discrete a running ≡ true) where
  -- The `failed` key of an attempt in progress is free.
  failed_free : has_event (key_of a StageStatus.failed) s.stage_events ≢ true
  failed_free = λ h. ground (arith, inv.failed_counted a, inv.in_progress a)

  -- The event and the counter are written, and the counter is the next one.
  pub FailureRecorded-counted :
      {error : Text} {d : RetryDecision} {s' : Store}
      → (r : FailureRecorded a error d s s')
      → (l : Logged (key_of a StageStatus.failed) s r.with_event) × (r.with_count
          ≡ counted a l.detail error l.stamp s)
        × (r.count ≡ suc (failures s a))
  FailureRecorded-counted {error} {d} {s'} r =
      elim (insert_event-eq-some _ _ _ s r.with_event r.new_event r.event) [
        | inl (_, _, taken) ↦ absurd (failed_free taken)
        | inr (_, l) ↦
            let (n, after) =
              upsert_retry-eq-some _ _ _ r.with_event r.with_count r.count r.counted in
            (
              l,
              ground (arith, after, l.after),
              ground (
                arith,
                n,
                l.after,
                retry_count-upsert_rows (pair_of a) (pair_of a) error s.stage_retries,
              ),
            )
      ]

  pub FailureRecorded-Failed :
      {error : Text} {d : RetryDecision} {s' : Store}
      → FailureRecorded a error d s s'
      → Failed a s s' × RowsDue s' s'.outbox
  FailureRecorded-Failed {error} {d} {s'} r =
      let (l, same, count) = FailureRecorded-counted r in
      after-Failed a l.detail error l.stamp s s' d (rw (← count) r.decided) (inv.dead (pair_of a))
        (inv.in_progress a held).next inv.rows_due l.free inv.unique_events inv.unique_pairs
        (rw (← same) r.last)
