-- ===== src/System.antt =====
-- All instances over one database: each step is one call that some instance makes, under any
-- environment, so steps interleave freely and any of their calls may fail. Handler calls that the
-- emitters made stay in `delivered`, so a step may run a handler again for a delivery that was
-- handled, and a `recompute` needs no frame. The program does neither: the steps allow more than it
-- does, which is safe for what holds of all of them, and says nothing of what it will do.
pub mod Facts
pub mod Claiming
pub mod Failing
pub mod Recording
pub mod Relaying
pub mod Calls
pub mod Invariant
pub mod Safety
pub mod Statuses
pub mod Settled
pub mod Progress
pub mod Owed
pub mod Changes
pub mod Phases
pub mod Hydration
pub mod Finishing
pub mod Overlap
pub mod Working
use order_outbox_lab.Common.{ℕ, ◌≡◌, Bool, true, List, [], ◌∷◌, Text, contains, without}
use order_outbox_lab.Database.{empty_store}
use order_outbox_lab.Database.Query.{Sorter}
use order_outbox_lab.Frames.{Attempt, Attempt-discrete}
use order_outbox_lab.Effects.{Env, World, Result, ok, query}
use order_outbox_lab.Orders.Validation.{JsNumber, CreateOrderBody}
use order_outbox_lab.Orders.{create}
use order_outbox_lab.Outbox.Relay.{claim_and_emit}
use order_outbox_lab.Stages.Runner.{claim, complete, fail}
use order_outbox_lab.Status.{recompute, fail_order}

-- `running`: attempts that an instance has claimed and not yet recorded an outcome for.
pub record System : Type 0 where
  pub world : World
  pub running : List Attempt

abbrev pub empty_world : World
empty_world = record { store = empty_store; calls = 0; delivered = []; published = [] }

abbrev pub initial : System
initial = record { world = empty_world; running = [] }

abbrev pub joined : Attempt → List Attempt → Result Bool × World → System
joined a running (ok true, w) = record { world = w; running = a ∷ running }
joined a running (_, w) = record { world = w; running = running }

module _ (sorter : Sorter) (js : JsNumber) where
  pub data Step : System → System → Type 0 where
    creates :
        (s : System) (env : Env) (body : CreateOrderBody js)
        → Step s (record s { world = (create js body env s.world).1 })
    polls :
        (s : System) (env : Env) (locked : ℕ → Bool)
        → Step s (record s { world = (claim_and_emit sorter locked env s.world).1 })
    claims :
        (s : System) (env : Env) (a : Attempt)
        → contains Attempt-discrete a s.world.delivered ≡ true
        → Step s (joined a s.running (claim a env s.world))
    completes :
        (s : System) (env : Env) (a : Attempt) (detail : Text)
        → contains Attempt-discrete a s.running ≡ true
        → Step s (record {
          world = (complete a detail env s.world).1;
          running = without Attempt-discrete a s.running;
        })
    fails :
        (s : System) (env : Env) (a : Attempt) (error : Text)
        → contains Attempt-discrete a s.running ≡ true
        → Step s (record {
          world = (fail a error env s.world).1;
          running = without Attempt-discrete a s.running;
        })
    recomputes :
        (s : System) (env : Env) (id : ℕ)
        → Step s (record s { world = (recompute id env s.world).1 })
    -- The second statement of a `recompute`, where other steps fell between the two.
    resumes :
        (s : System) (env : Env) (id : ℕ)
        → Step s (record s { world = (query (fail_order id) env s.world).1 })
    -- The process that runs `a` dies.
    crashes :
        (s : System) (a : Attempt)
        → Step s (record s { running = without Attempt-discrete a s.running })

  pub data Reach : System → Type 0 where
    start : Reach initial
    later : {s t : System} → Reach s → Step s t → Reach t
