-- ===== src/Database.antt =====
-- The four tables: src/base/base-entity.ts, the entities of src/modules, and the columns, defaults
-- and keys of src/infrastructure/database/migrations. A `timestamptz` or a `Date` is a number of
-- milliseconds, a uuid or a bigserial a number. A table is a list, the newest row first; SQL gives it
-- no order. Nothing in the program deletes a row.
pub mod Query
use order_outbox_lab.Common.{
  ℕ, Bool, true, false, List, [], ◌∷◌, Option, none, Text, ite, ℕ_discrete,
}
use order_outbox_lab.Pipeline.{StageName, StageStatus, OrderStatus, StageRetryStatus}

pub record BaseEntity : Type 0 where
  pub id : ℕ
  pub created_at : ℕ
  pub updated_at : ℕ
  pub deleted_at : Option ℕ

pub record OrderEntity : Type 0 where
  pub base : BaseEntity
  pub open base use *
  pub customer_name : Text
  pub amount : Text
  pub status : OrderStatus

pub record OutboxPayload : Type 0 where
  pub order_id : ℕ
  pub stage : Option StageName
  pub attempt : ℕ

pub record OutboxEntity : Type 0 where
  pub base : BaseEntity
  pub open base use *
  pub order_id : ℕ
  pub payload : OutboxPayload
  pub stage : Option StageName
  pub processed : Bool
  pub available_at : ℕ
  pub processed_at : Option ℕ

pub record OrderStageEventEntity : Type 0 where
  pub id : ℕ
  pub order_id : ℕ
  pub stage : StageName
  pub status : StageStatus
  pub attempt : ℕ
  pub detail : Option Text
  pub created_at : ℕ

pub record StageRetryEntity : Type 0 where
  pub order_id : ℕ
  pub stage : StageName
  pub retry_count : ℕ
  pub status : StageRetryStatus
  pub last_error : Option Text

pub record Store : Type 0 where
  pub orders : List OrderEntity
  pub outbox : List OutboxEntity
  pub stage_events : List OrderStageEventEntity
  pub stage_retries : List StageRetryEntity

abbrev pub empty_store : Store
empty_store = record { orders = []; outbox = []; stage_events = []; stage_retries = [] }

-- The key of the unique index `uq_stage_attempt`.
pub record EventKey : Type 0 where
  pub order_id : ℕ
  pub stage : StageName
  pub attempt : ℕ
  pub status : StageStatus

-- The primary key of `stage_retries`.
pub record RetryKey : Type 0 where
  pub order_id : ℕ
  pub stage : StageName

unfoldable pub EventKey-discrete : Discrete EventKey
unfolding ℕ_discrete
EventKey-discrete = hlevel ℕ_discrete

unfoldable pub RetryKey-discrete : Discrete RetryKey
unfolding ℕ_discrete
RetryKey-discrete = hlevel ℕ_discrete

abbrev pub event_key : OrderStageEventEntity → EventKey
event_key e = record {
  order_id = e.order_id;
  stage = e.stage;
  attempt = e.attempt;
  status = e.status;
}

abbrev pub retry_key : StageRetryEntity → RetryKey
retry_key r = record { order_id = r.order_id; stage = r.stage }

-- What the database fills in for a row that a statement inserts or updates: the generated key
-- (`gen_random_uuid()`, the next of a sequence) and `now()`.
pub record Stamp : Type 0 where
  pub id : ℕ
  pub now : ℕ

abbrev pub new_base : Stamp → BaseEntity
new_base t = record { id = t.id; created_at = t.now; updated_at = t.now; deleted_at = none }

-- Does a foreign key that refers to `orders` find its row?
unfoldable pub has_order : ℕ → List OrderEntity → Bool
has_order id [] = false
has_order id (o ∷ os) = ite (ℕ_discrete o.id id) true (has_order id os)
