-- ===== src/System/Settled.antt =====
-- The statuses of orders over the runs of the system.
use order_outbox_lab.Common.{◌≡◌, subst, ℕ, Option, none, some}
use order_outbox_lab.Pipeline.{OrderStatus, StageName}
use order_outbox_lab.Database.{Store}
use order_outbox_lab.Database.Query.{Sorter}
use order_outbox_lab.Orders.Validation.{JsNumber}
use order_outbox_lab.Stages.Statements.Counters.{UniquePairs}
use order_outbox_lab.Status.Deciding.{
  CompletedIn, DeadIn, completed_key, pair_key, all_completed_iff, has_dead_letter_iff,
}
use order_outbox_lab.Status.Settling.{status_of}
use order_outbox_lab.Status.Moves.{StatusMove, stays, opens, fulfils, gives_up}
use order_outbox_lab.System.{System, Step, Reach, start, later}
use order_outbox_lab.System.Invariant.{Reach-Holds}
use order_outbox_lab.System.Statuses.{Moved, Step-Moved}

-- What a status says of the tables.
abbrev pub Justified : ℕ → Store → Option OrderStatus → Type 0
Justified j s (some OrderStatus.fulfilled) =
    (stage : StageName) → CompletedIn s.stage_events j stage
Justified j s (some OrderStatus.failed) = DeadIn s.stage_retries j
Justified j s (some OrderStatus.pending) = Unit
Justified j s none = Unit

module _ {s s' : Store} (m : Moved s s') (j : ℕ) where
  Justified-later : (x : Option OrderStatus) → Justified j s x → Justified j s' x
  Justified-later (some OrderStatus.fulfilled) h =
      λ stage. ((h stage).0, m.events_stay (completed_key j stage (h stage).0) (h stage).1)
  Justified-later (some OrderStatus.failed) (stage, e) = (stage, m.dead_stay (pair_key j stage) e)
  Justified-later (some OrderStatus.pending) h = tt
  Justified-later none h = tt

  -- A move to a settled status finds its condition in the tables before it.
  Justified-StatusMove :
      UniquePairs s.stage_retries
      → (x y : Option OrderStatus) → StatusMove j s x y
      → Justified j s x
      → Justified j s' y
  Justified-StatusMove u x y (stays e) h = rw e (Justified-later x h)
  Justified-StatusMove u x y (opens e e') h = rw e' tt
  Justified-StatusMove u x y (fulfils e c e') h =
      rw e'
        (Justified-later (some OrderStatus.fulfilled) ((all_completed_iff j s.stage_events).0 c))
  Justified-StatusMove u x y (gives_up e d e') h =
      rw e'
        (Justified-later (some OrderStatus.failed) ((has_dead_letter_iff j s.stage_retries u).0 d))

module _ {sorter : Sorter} {js : JsNumber} where
  -- From a reachable state, whatever a step does and whatever fails in it, the status of an order
  -- stays, or a new order opens as `pending`, or a pending order becomes `fulfilled` when its three stages have completed, or
  -- `failed` when one of its stages is dead-lettered.
  pub status_moves :
      {s t : System}
      → Reach sorter js s
      → Step sorter js s t
      → (j : ℕ)
      → StatusMove j s.world.store
          (status_of j s.world.store.orders)
          (status_of j t.world.store.orders)
  status_moves r st j = (Step-Moved st (Reach-Holds r)).status j

  all_Justified :
      {s : System}
      → Reach sorter js s
      → (j : ℕ) → Justified j s.world.store (status_of j s.world.store.orders)
  unfolding status_of
  all_Justified start j = tt
  all_Justified (later r st) j =
      Justified-StatusMove (Step-Moved st (Reach-Holds r)) j (Reach-Holds r).unique_pairs _ _
        (status_moves r st j) (all_Justified r j)

  -- In every reachable state, each stage of a `fulfilled` order has a completed attempt, and a
  -- `failed` order has a dead-lettered stage.
  pub settled_is_justified :
      {s : System}
      → Reach sorter js s
      → (j : ℕ)
      → (status_of j s.world.store.orders ≡ some OrderStatus.fulfilled
          → (stage : StageName) → CompletedIn s.world.store.stage_events j stage)
        × (status_of j s.world.store.orders ≡ some OrderStatus.failed
            → DeadIn s.world.store.stage_retries j)
  settled_is_justified {s} r j = (
    (λ h. subst (Justified j s.world.store) h (all_Justified r j)),
    (λ h. subst (Justified j s.world.store) h (all_Justified r j)),
  )
