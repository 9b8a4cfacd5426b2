-- ===== src/System/Overlap/Results.antt =====
-- The attempts that are due, the rows of open ticks and the states of System, where ticks overlap.
use order_outbox_lab.Common.{
  ℕ, ◌≡◌, ◌≢◌, ◌↔◌, refl, sym, subst, ap, ◌∙◌, inl, inr, Bool-cases, true, false, List, [], ◌∷◌,
  some, contains, arith, ℕ_discrete, if_pos, All, All-map,
}
use order_outbox_lab.Database.{OutboxEntity, has_order}
use order_outbox_lab.Database.Query.{Sorter}
use order_outbox_lab.Frames.{Attempt, Attempt-discrete}
use order_outbox_lab.Effects.{Env, World, Result, ok, err, then_run}
use order_outbox_lab.Orders.Validation.{JsNumber}
use order_outbox_lab.Outbox.Relay.Delivery.{ids}
use order_outbox_lab.Outbox.Relay.Halves.{emit_batch, finish_batch, claim_and_emit-halves}
use order_outbox_lab.System.{
  System, Reach, polls, creates, claims, completes, fails, recomputes, resumes, crashes,
}
use order_outbox_lab.System.Facts.{IsDue}
use order_outbox_lab.System.Owed.{Covered, causes}
use order_outbox_lab.System.Owed.Kept.{queued-IsDue}
use order_outbox_lab.System.Overlap.{
  OpenTick, Overlap, batch_of, without_tick, holds, opened, calls, opens, finishes, Reached,
}
use order_outbox_lab.System.Overlap.Batches.{IsSent, holds-batch_of, batch_of-Apart}
use order_outbox_lab.System.Overlap.Safety.{Reached-Sound}

batch_of-without_tick :
    (i j : ℕ) (ticks : List OpenTick) → i ≢ j → batch_of j (without_tick i ticks) ≡ batch_of j ticks
unfolding batch_of without_tick
batch_of-without_tick i j [] apart = refl
batch_of-without_tick i j (t ∷ ts) apart = ground (arith, batch_of-without_tick i j ts)

module _ {sorter : Sorter} {js : JsNumber} where
  -- In every state that any interleaving reaches, with the transactions of ticks overlapping and any
  -- of them aborted, no attempt is lost between the transaction that causes it and its handler, and
  -- none is made up: an attempt of an existing order has a number from 1 to one past the recorded
  -- failures of its stage, and within `MAX_RETRIES`, exactly when an unprocessed and undeleted row
  -- of the outbox causes it or it was handed to the handler of its stage.
  pub overlapped-IsDue_iff :
      {o : Overlap}
      → Reached sorter js o
      → (a : Attempt) → has_order a.order_id o.world.store.orders ≡ true
      → IsDue o.world.store a ↔ Covered o.world.store.outbox o.world.delivered a
  overlapped-IsDue_iff {o} r a known =
      let ((facts, owes), _) = Reached-Sound r in
      (
        (λ (lo, hi, within). owes.covered a (known, lo, hi, within)),
        (λ c. elim c [
          | inl q ↦ queued-IsDue o.world.store a o.world.store.outbox facts.rows_due q
          | inr sent ↦ facts.delivered_due a sent
        ]),
      )

  -- In every state that overlapping ticks reach, the batch of an open tick and that of a tick of
  -- another instance share no row, and every row of the table that the batch holds is unprocessed
  -- and the calls that it causes have been made.
  pub open_ticks_exclusive :
      {o : Overlap} {rows others : List OutboxEntity}
      → Reached sorter js o
      → (i j : ℕ) → i ≢ j
      → batch_of i o.ticks ≡ some rows
      → batch_of j o.ticks ≡ some others
      → ((id : ℕ)
          → contains ℕ_discrete id (ids rows) ≡ true
          → contains ℕ_discrete id (ids others) ≡ false)
        × All
            (λ row.
              contains ℕ_discrete row.id (ids rows) ≡ true
              → (row.processed ≡ false)
                × ((a : Attempt)
                    → causes a row ≡ true
                    → contains Attempt-discrete a o.world.delivered ≡ true))
            o.world.store.outbox
  open_ticks_exclusive {o} {rows} {others} r i j apart e f =
      let (_, b) = Reached-Sound r in
      (
        (λ id c. elim (Bool-cases (contains ℕ_discrete id (ids others))) [
          | inl hit ↦ ground (
            arith,
            batch_of-Apart i id o.ticks {rows = rows} b.apart e c,
            holds-batch_of j id (without_tick i o.ticks) {rows = others}
                (batch_of-without_tick i j o.ticks apart ∙ f) hit,
          )
          | inr miss ↦ miss
        ]),
        All-map (IsSent o.ticks o.world.delivered)
            (λ row.
              contains ℕ_discrete row.id (ids rows) ≡ true
              → (row.processed ≡ false)
                × ((a : Attempt)
                    → causes a row ≡ true
                    → contains Attempt-discrete a o.world.delivered ≡ true))
            (λ row h c. h (holds-batch_of i row.id o.ticks e c)) o.world.store.outbox b.sent,
      )

-- One whole tick, as two moves.
ticked-Reached :
    {sorter : Sorter} {js : JsNumber} (s : System) (env : Env)
    (r : Result (List OutboxEntity) × World)
    → Reached sorter js (opened 0 (record { system = s; ticks = [] }) r)
    → Reached sorter js
        (record { system = record s { world = (then_run env finish_batch r).1 }; ticks = [] })
unfolding batch_of without_tick
ticked-Reached {sorter} {js} s env (ok rows, u) r =
    subst
      (λ ticks. Reached sorter js (record {
        system = record { world = (finish_batch rows env u).1; running = s.running };
        ticks = ticks;
      }))
      (if_pos (ℕ_discrete 0 0) refl _ _)
      (Reached.later r (
        finishes (opened 0 (record { system = s; ticks = [] }) (ok rows, u)) env 0 rows
          (if_pos (ℕ_discrete 0 0) refl _ _)))
ticked-Reached s env (err e, u) r = r

module _ {sorter : Sorter} {js : JsNumber} where
  -- Every state that the system reaches with ticks in one piece is reached by overlapping ticks, with
  -- none of them open.
  pub Reach-Reached :
      {s : System} → Reach sorter js s → Reached sorter js (record { system = s; ticks = [] })
  unfolding holds batch_of
  Reach-Reached Reach.start = Reached.start
  Reach-Reached (Reach.later r (polls s env locked)) =
      subst (λ w. Reached sorter js (record { system = record s { world = w }; ticks = [] }))
        (sym (ap (λ x. x.1) (claim_and_emit-halves sorter locked env s.world)))
        (ticked-Reached s env (emit_batch sorter locked env s.world) (
          Reached.later (Reach-Reached r)
            (opens (record { system = s; ticks = [] }) env 0 locked refl)))
  Reach-Reached (Reach.later r (creates s env body)) =
      Reached.later (Reach-Reached r) (calls [] (creates s env body) refl)
  Reach-Reached (Reach.later r (claims s env a d)) =
      Reached.later (Reach-Reached r) (calls [] (claims s env a d) refl)
  Reach-Reached (Reach.later r (completes s env a detail held)) =
      Reached.later (Reach-Reached r) (calls [] (completes s env a detail held) refl)
  Reach-Reached (Reach.later r (fails s env a error held)) =
      Reached.later (Reach-Reached r) (calls [] (fails s env a error held) refl)
  Reach-Reached (Reach.later r (recomputes s env id)) =
      Reached.later (Reach-Reached r) (calls [] (recomputes s env id) refl)
  Reach-Reached (Reach.later r (resumes s env id)) =
      Reached.later (Reach-Reached r) (calls [] (resumes s env id) refl)
  Reach-Reached (Reach.later r (crashes s a)) =
      Reached.later (Reach-Reached r) (calls [] (crashes s a) refl)
