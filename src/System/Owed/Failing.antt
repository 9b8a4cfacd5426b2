-- ===== src/System/Owed/Failing.antt =====
-- What the outbox owes after the failure of an attempt in progress.
use Prim.Native.Nat.{suc}
use order_outbox_lab.Common.{
  ℕ, ◌+◌, ◌≡◌, ◌⊎◌, inl, inr, Bool, true, false, List, [], ◌∷◌, contains, arith, leb, Text, Option,
  some, subst,
}
use order_outbox_lab.Database.{Store, Stamp, EventKey, RetryKey-discrete, has_order}
use order_outbox_lab.Frames.{Attempt, Attempt-discrete}
use order_outbox_lab.Outbox.{insert_outbox, outbox_row, has_row}
use order_outbox_lab.Stages.{RetryDecision, max_retries, next_action_after_failure}
use order_outbox_lab.Stages.Statements.{has_event, insert_event, dead_letter}
use order_outbox_lab.Stages.Runner.{pair_of, retry_entry}
use order_outbox_lab.Stages.Runner.Outcomes.{AfterFailure, FailureRecorded}
use order_outbox_lab.System.Facts.{Inv, failures}
use order_outbox_lab.System.Failing.{Failed}
use order_outbox_lab.System.Recording.{counted, FailureRecorded-counted}
use order_outbox_lab.System.Owed.{causes, queued, Covered, IsReached, Owed}

-- What a failure does to the orders and to the outbox.
pub record Queued (a : Attempt) (s s' : Store) : Type 0 where
  pub same_orders : s'.orders ≡ s.orders
  pub known : has_order a.order_id s.orders ≡ true
  pub queue :
      ((leb max_retries (suc (failures s a)) ≡ true) × (s'.outbox ≡ s.outbox))
      ⊎ ((t : Stamp) × (now : ℕ) × (has_row t.id s.outbox ≡ false)
          × (s'.outbox ≡ outbox_row (retry_entry a now) t ∷ s.outbox))

insert_event-has_order :
    (k : EventKey) (detail : Option Text) (t : Stamp) (s s' : Store) (b : Bool)
    → has_event k s.stage_events ≡ false
    → insert_event k detail t s ≡ some (b, s')
    → has_order k.order_id s.orders ≡ true
unfolding insert_event
insert_event-has_order k detail t s s' b free h = ground arith

after-Queued :
    (a : Attempt) (detail : Option Text) (error : Text) (t : Stamp) (s s' : Store)
    (d : RetryDecision)
    → d ≡ next_action_after_failure (suc (failures s a))
    → has_order a.order_id s.orders ≡ true
    → AfterFailure a d (counted a detail error t s) s'
    → Queued a s s'
unfolding next_action_after_failure dead_letter insert_outbox
after-Queued a detail error t s s' RetryDecision.dead_letter e known (t', w) = record {
  same_orders = ground (arith);
  known = known;
  queue = inl (ground arith, ground arith);
}
after-Queued a detail error t s s' RetryDecision.retry e known (t', now, w) = record {
  same_orders = ground (arith);
  known = known;
  queue = inr (t', now, ground arith, ground arith);
}

module _ {s : Store} {delivered running : List Attempt} (inv : Inv s delivered running)
    (a : Attempt) (held : contains Attempt-discrete a running ≡ true) where
  pub FailureRecorded-Queued :
      {error : Text} {d : RetryDecision} {s' : Store}
      → FailureRecorded a error d s s'
      → Queued a s s'
  FailureRecorded-Queued {error} {d} {s'} r =
      let (l, same, count) = FailureRecorded-counted inv a held r in
      after-Queued a l.detail error l.stamp s s' d
        (subst (λ n. d ≡ next_action_after_failure n) count r.decided)
        (insert_event-has_order _ _ _ s r.with_event r.new_event l.free r.event)
        (subst (λ x. AfterFailure a d x s') same r.last)

-- The retry row that is queued causes the next attempt of the pair.
causes-retry :
    (a b : Attempt) (t : Stamp) (now : ℕ)
    → pair_of a ≡ pair_of b
    → b.attempt ≡ a.attempt + 1
    → causes b (outbox_row (retry_entry a now) t) ≡ true
unfolding contains
causes-retry a b t now same next =
    let e : record a { attempt = a.attempt + 1 } ≡ b = ground arith in
    subst (λ x. contains Attempt-discrete x (record a { attempt = a.attempt + 1 } ∷ []) ≡ true) e
      (ground arith)

module _ {a : Attempt} {s s' : Store} (f : Failed a s s') (q : Queued a s s')
    (next : a.attempt ≡ suc (failures s a)) where
  -- Either it was reached before, or it is the next attempt and its row is new.
  earlier_or_next :
      (b : Attempt)
      → IsReached s' b
      → IsReached s b ⊎ ((pair_of a ≡ pair_of b) × (b.attempt ≡ a.attempt + 1))
  earlier_or_next b (h, lo, hi, within) = elim (RetryKey-discrete (pair_of a) (pair_of b)) [
    | yes p ↦ ground (arith, f.count (pair_of b), q.same_orders)
    | no n ↦ ground (arith, f.count (pair_of b), q.same_orders)
  ]

  rows_after :
      {delivered : List Attempt}
      → Owed s delivered
      → (b : Attempt) → IsReached s' b
      → Covered s'.outbox delivered b
  unfolding queued
  rows_after {delivered} o b r = elim (earlier_or_next b r) [
    | inl before ↦ elim q.queue [
      | inl (last, same) ↦ rw same (o.covered b before)
      | inr (t, now, fresh, e) ↦ ground (arith, o.covered b before, e)
    ]
    | inr (p, n) ↦ elim q.queue [
      | inl (last, same) ↦ absurd (ground (arith))
      | inr (t, now, fresh, e) ↦ inl (ground (arith, e, causes-retry a b t now p n))
    ]
  ]

  pub Owed-failed : {delivered : List Attempt} → Owed s delivered → Owed s' delivered
  Owed-failed o = record {
    known = λ k h. ground (arith, f.count k, q.same_orders, q.known, o.known k);
    unique_rows = elim q.queue [
      | inl (last, same) ↦ rw same o.unique_rows
      | inr (t, now, fresh, e) ↦ rw e (fresh, o.unique_rows)
    ];
    covered = rows_after o;
  }
