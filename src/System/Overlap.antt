-- ===== src/System/Overlap.antt =====
-- Ticks whose transactions overlap: the SELECT and the emits of a tick are one step, and its UPDATE
-- with the COMMIT another, so that calls of any instance fall between. The rows that a tick has
-- claimed stay locked until it ends, and an instance starts no tick while it runs one.
pub mod Rows
pub mod Batches
pub mod Kept
pub mod Owing
pub mod Safety
pub mod Results
pub mod Once
pub mod Moving
use order_outbox_lab.Common.{
  ℕ, ◌≡◌, Bool, true, false, ◌||◌, List, [], ◌∷◌, Option, none, some, ite, ℕ_discrete, contains,
}
use order_outbox_lab.Database.{OutboxEntity}
use order_outbox_lab.Database.Query.{Sorter}
use order_outbox_lab.Frames.{Attempt}
use order_outbox_lab.Effects.{Env, World, Result, ok, err}
use order_outbox_lab.Orders.Validation.{JsNumber}
use order_outbox_lab.Outbox.Relay.Delivery.{ids}
use order_outbox_lab.Outbox.Relay.Halves.{emit_batch, finish_batch}
use order_outbox_lab.System.{
  System, initial, Step, creates, polls, claims, completes, fails, recomputes, resumes, crashes,
}

-- A tick of an instance, from its SELECT to the end of its transaction.
pub record OpenTick : Type 0 where
  pub instance_id : ℕ
  pub rows : List OutboxEntity

pub record Overlap : Type 0 where
  pub system : System
  pub open system use *
  pub ticks : List OpenTick

-- The batch that the instance has claimed and not yet marked.
unfoldable pub batch_of : ℕ → List OpenTick → Option (List OutboxEntity)
batch_of i [] = none
batch_of i (t ∷ ts) = ite (ℕ_discrete t.instance_id i) (some t.rows) (batch_of i ts)

unfoldable pub without_tick : ℕ → List OpenTick → List OpenTick
without_tick i [] = []
without_tick i (t ∷ ts) =
    ite (ℕ_discrete t.instance_id i) (without_tick i ts) (t ∷ without_tick i ts)

-- The row locks that the open ticks hold.
unfoldable pub holds : List OpenTick → ℕ → Bool
holds [] id = false
holds (t ∷ ts) id = contains ℕ_discrete id (ids t.rows) || holds ts id

-- The rows that a SELECT skips: those, and those of any other session.
abbrev pub skipped : List OpenTick → (ℕ → Bool) → ℕ → Bool
skipped ticks locked id = holds ticks id || locked id

abbrev pub opened : ℕ → Overlap → Result (List OutboxEntity) × World → Overlap
opened i o (ok rows, w) = record {
  system = record { world = w; running = o.running };
  ticks = record { instance_id = i; rows = rows } ∷ o.ticks;
}
opened i o (err e, w) = record o { system = record { world = w; running = o.running } }

abbrev pub closed : ℕ → Overlap → World → Overlap
closed i o w = record {
  system = record { world = w; running = o.running };
  ticks = without_tick i o.ticks;
}

abbrev pub empty : Overlap
empty = record { system = initial; ticks = [] }

module _ (sorter : Sorter) (js : JsNumber) where
  -- A step of the system that is no tick.
  abbrev pub is_tick : {s t : System} → Step sorter js s t → Bool
  is_tick (polls s env locked) = true
  is_tick (creates s env body) = false
  is_tick (claims s env a d) = false
  is_tick (completes s env a detail held) = false
  is_tick (fails s env a error held) = false
  is_tick (recomputes s env id) = false
  is_tick (resumes s env id) = false
  is_tick (crashes s a) = false

  pub data Move : Overlap → Overlap → Type 0 where
    calls :
        (ticks : List OpenTick) {s t : System} (st : Step sorter js s t)
        → is_tick st ≡ false
        → Move (record { system = s; ticks = ticks }) (record { system = t; ticks = ticks })
    -- `if (this.running) return;`
    opens :
        (o : Overlap) (env : Env) (i : ℕ) (locked : ℕ → Bool)
        → batch_of i o.ticks ≡ none
        → Move o (opened i o (emit_batch sorter (skipped o.ticks locked) env o.world))
    finishes :
        (o : Overlap) (env : Env) (i : ℕ) (rows : List OutboxEntity)
        → batch_of i o.ticks ≡ some rows
        → Move o (closed i o (finish_batch rows env o.world).1)
    -- The process of the instance dies, or its connection: the transaction is rolled back.
    aborts : (o : Overlap) (i : ℕ) → Move o (closed i o o.world)

  pub data Reached : Overlap → Type 0 where
    start : Reached empty
    later : {o o' : Overlap} → Reached o → Move o o' → Reached o'
