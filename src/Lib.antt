-- ===== src/Lib.antt =====
-- order-outbox-lab: a POST of an order writes the order and an outbox row in one transaction; every
-- instance polls the outbox and emits the claimed rows to three stage handlers (payment, inventory,
-- email); a handler claims its attempt, does simulated work, and records the outcome with a retry or
-- a dead letter; a watcher settles the status of the order from the tables when frames reach it.
--
-- Which file models what (paths are of the repository):
--   Pipeline: src/shared. Database, Database/Query: the entities, the columns and keys of
--   src/infrastructure/database/migrations, and what queries ask of Postgres. Frames:
--   src/modules/stage-events/types.
--   Schema (Migrations, Reverting, Entities, Matching, Migrator): the migrations as statements on tables
--   with rows, the decorators of the entities, and main of migrate.ts.
--   Effects: asynchronous code as state passing. Each call of the database or of the bus is numbered
--   and ends `done`, `rejected`, or `lost` (it took effect, and the reply never came), as an `Env`
--   says that theorems leave open. A `transaction` restores the store unless it commits.
--   Orders (Validation, Creation, Lists, Trimming): src/modules/orders. `create` is
--   OrdersService.create, `parse_create_order` is parseCreateOrder.
--   Queries: src/base and the DTOs of the list endpoints.
--   Outbox, Outbox/Relay: src/modules/outbox. `claim_and_emit` and `poll` are the methods of
--   OutboxRelayService; SKIP LOCKED is the set of rows that others hold. Outbox/Relay/Halves has the
--   transaction of a tick in two parts.
--   Stages: the constants, policy and simulation of src/modules/stages; Stages/Handlers the handler
--   factory; Stages/Statements the SQL, and Stages/Runner the methods, of StageRunner.
--   Status: OrderStatusService of src/modules/status. StageEvents: src/modules/stage-events, and the
--   watcher's subscription.
--   StageEvents/Service: StageEventsService over the bus of its instance. Endpoints: the controllers,
--   with the validation pipe before them.
--   EventBus: RedisEventBus; EventBus/Contract the abstract EventBus, which EventBus/Broadcast fills.
--   Wiring: app.module.ts and the other modules. Health: src/modules/health. Config: src/config.
--   LoadGenerator: tools/load-generator/generate.ts.
--   Dashboard (Dom, Fetch, Sidebar, Timeline, App): public/js. `refresh_sidebar` is refreshSidebar, and
--   `select` and `hydrated` are `select` of app.js before and after its await.
--   System: all instances over one database. A step is one call that an instance makes, under any
--   environment; steps interleave freely. The steps allow more than the program does: a call of `run`
--   may be made again for a delivery that was handled, and a `recompute` may come without a frame. So
--   what holds of all steps holds of the program, and that a run exists here says nothing of it.
--   `Reach` are the states that a run from empty tables can reach, and System/Facts the invariant
--   behind the results on them.
--   System/Owed: the attempts that are due, and the rows and deliveries that account for them.
--   System/Phases: the lifecycle of one stage of one order, after docs/data-flow.md, as moves between
--   phases. System/Hydration: how many events an order can have. System/Finishing: a tick that takes the
--   row of a new order, `StageRunner.run` for each call that it makes, and the `recompute` after them;
--   and the attempts whose process has died.
--   System/Working: how often the work of an attempt is started on a run.
--   System/Overlap: ticks of several instances whose transactions overlap.
--   Samples: a sorter, numbers, a short history and a codec; Tests: runs, and the theorems at these
--   inputs.
--
-- Parameters: TypeORM's naming strategy and its runMigrations, the modules of Nest and of libraries,
-- JavaScript numbers (`JsNumber`), ORDER BY (`Sorter`, with its documented laws, met by an insertion
-- sort), `JSON.parse`, what dayjs makes of a time, how requests and calls end. Times are milliseconds,
-- and ids numbers, but texts in Dashboard.
-- Fuel: a burst of the load generator runs on `count` rounds, which are enough since `sent` grows by
-- at least 1; a decimal has at most n + 1 digits.
-- A step of System is atomic: the transactions of a failure and of a creation are taken to be serial
-- with the other statements, as READ COMMITTED and row locks make them for the rows that they share.
-- The two UPDATEs of the watcher may have other steps between them. A tick is one step of System, where
-- `locked` are the rows that it does not get, and two moves of System/Overlap, where any calls fall
-- between the emits and the UPDATE, and the open ticks say which rows are locked.
-- Not modelled: bootstrap of src/main.ts but for its validation pipe, HTTP, RxJS, Redis and Postgres
-- themselves, log lines of the stages, deletion of orders, the reconnection of an EventSource.
pub mod Common
pub mod Pipeline
pub mod Database
pub mod Schema
pub mod Frames
pub mod Effects
pub mod Outbox
pub mod Stages
pub mod Status
pub mod Orders
pub mod EventBus
pub mod Config
pub mod LoadGenerator
pub mod Health
pub mod Queries
pub mod StageEvents
pub mod Endpoints
pub mod Wiring
pub mod System
pub mod Dashboard
pub mod Samples
mod Tests
