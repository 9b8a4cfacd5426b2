-- ===== src/System/Finishing/Fulfilling.antt =====
-- A tick that takes the untagged row of an order, the calls of `StageRunner.run` that it makes, and
-- the watcher's `recompute` after them, when no call fails.
use order_outbox_lab.Common.{
  ℕ, ◌≡◌, ap, ◌∙◌, inl, inr, Bool, true, false, List, [], ◌∷◌, ◌++◌, none, some, Memᴰ, subst,
  contains, contains-append_left, contains-append_right, arith,
}
use order_outbox_lab.Pipeline.{StageName, StageStatus, OrderStatus}
use order_outbox_lab.Database.{OutboxEntity, OrderEntity, Store, has_order}
use order_outbox_lab.Database.Query.{Sorter}
use order_outbox_lab.Effects.{Env, World}
use order_outbox_lab.Frames.{Attempt-discrete}
use order_outbox_lab.Outbox.{claim_rows}
use order_outbox_lab.Outbox.Relay.{emissions, intended, emit-intended, claim_and_emit}
use order_outbox_lab.Outbox.Relay.Delivery.{claim_and_emit-Relayed}
use order_outbox_lab.Stages.Statements.{has_event}
use order_outbox_lab.Stages.Runner.{key_of}
use order_outbox_lab.Status.{recompute}
use order_outbox_lab.Status.Settling.{status_of, recompute-decides}
use order_outbox_lab.Status.Deciding.{all_completed_iff}
use order_outbox_lab.System.Progress.{claim_and_emit-resolves}
use order_outbox_lab.Stages.Runner.Succeeding.{Calm}
use order_outbox_lab.System.Finishing.Running.{Rolls, first_of, run_stages, run_stages-completes}

-- The untagged row that opens the order, with no stage of it started yet.
pub record IsOpening (row : OutboxEntity) (s : Store) : Type 0 where
  pub untagged : row.stage ≡ none
  pub first : row.payload.attempt ≡ 1
  pub pending : status_of row.payload.order_id s.orders ≡ some OrderStatus.pending
  pub unstarted :
      (stage : StageName)
      → has_event (key_of (first_of row.payload.order_id stage) StageStatus.started) s.stage_events
        ≡ false

status_of-known :
    (j : ℕ) (orders : List OrderEntity) (x : OrderStatus)
    → status_of j orders ≡ some x
    → has_order j orders ≡ true
unfolding status_of has_order
status_of-known j [] x h = cc
status_of-known j (o ∷ os) x h = ground (arith, status_of-known j os x)

-- A batch that has an untagged row calls all three handlers with its order.
emissions-untagged :
    (rows : List OutboxEntity) (row : OutboxEntity) (stage : StageName)
    → Memᴰ row rows
    → row.stage ≡ none
    → row.payload.attempt ≡ 1
    → contains Attempt-discrete (first_of row.payload.order_id stage) (emissions rows) ≡ true
unfolding emissions contains
emissions-untagged [] row stage m e first = elim m [ ]
emissions-untagged (r ∷ rs) row stage (Memᴰ.head same) e first =
    subst
      (λ x.
        contains Attempt-discrete (first_of row.payload.order_id stage) (emissions (x ∷ rs)) ≡ true)
      same
      (rw (emit-intended row.stage row.payload)
        (contains-append_left Attempt-discrete _ _ (emissions rs) (rw e (named stage))))
  where
    named :
        (stage : StageName)
        → contains Attempt-discrete
            (first_of row.payload.order_id stage)
            (intended none row.payload)
          ≡ true
    named StageName.payment = ground (arith, first)
    named StageName.inventory = ground (arith, first)
    named StageName.email = ground (arith, first)
emissions-untagged (r ∷ rs) row stage (Memᴰ.tail m) e first =
    contains-append_right Attempt-discrete _ _ (emissions rs)
      (emissions-untagged rs row stage m e first)

module _ (sorter : Sorter) (locked : ℕ → Bool) (env : Env) (calm : Calm env) (w : World)
    (row : OutboxEntity) (opening : IsOpening row w.store)
    (taken : Memᴰ row (claim_rows sorter locked (env.stamp w.calls).now w.store.outbox))
    (rolls : (stage : StageName) → Rolls stage) (calls : List StageName)
    (every : (stage : StageName) → Memᴰ stage calls) where
  abbrev pub batch : List OutboxEntity
  batch = claim_rows sorter locked (env.stamp w.calls).now w.store.outbox

  abbrev pub ticked : World
  ticked = (claim_and_emit sorter locked env w).1

  abbrev pub worked : World
  worked = run_stages row.payload.order_id rolls calls env ticked

  -- If no call fails, a tick whose batch has the untagged row of a pending order, no first attempt of
  -- which is started, makes the calls of its batch, among them those of the three stages with the first
  -- attempt. Once these three have run, one after the other in any order and with any of them repeated,
  -- and their simulations have passed, a `recompute` of the order fulfils it.
  pub opening-fulfils :
      (ticked.delivered ≡ emissions batch ++ w.delivered)
      × ((stage : StageName)
          → contains Attempt-discrete (first_of row.payload.order_id stage) (emissions batch)
            ≡ true)
      × (status_of row.payload.order_id (recompute row.payload.order_id env worked).1.store.orders
          ≡ some OrderStatus.fulfilled)
  opening-fulfils =
      let j = row.payload.order_id in
      let (_, sent, (at, now, after)) =
        (claim_and_emit-Relayed sorter locked env w).1 _
          (claim_and_emit-resolves sorter locked env w calm) in
      let orders = ap (λ s. s.orders) after in
      let pending = ap (status_of j) orders ∙ opening.pending in
      let (same, completes) =
        run_stages-completes j rolls env calm calls ticked (status_of-known j _ _ pending) (λ stage.
          inl (
            ap (λ s. has_event (key_of (first_of j stage) StageStatus.started) s.stage_events) after
            ∙ opening.unstarted stage)) in
      let all =
        (all_completed_iff j worked.store.stage_events).1
          (λ stage. (1, completes stage (inr (every stage)))) in
      let decided = recompute-decides j j env worked (calm _) (calm _) in
      let still = ap (status_of j) same ∙ pending in
      (
        sent,
        λ stage. emissions-untagged _ row stage taken opening.untagged opening.first,
        ground (arith, decided, all, still),
      )
