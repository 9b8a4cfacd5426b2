-- ===== src/Schema/Entities.antt =====
-- What the decorators of src/base/base-entity.ts and of the entities of src/modules declare.
use order_outbox_lab.Common.{
  Bool, true, false, List, [], ◌∷◌, ◌++◌, Option, none, some, Text, codes,
}
use order_outbox_lab.Pipeline.{OrderStatus}
use order_outbox_lab.Queries.{order_status_text}
use order_outbox_lab.Schema.{SqlType, Reference}

-- The default of a property: a generated value, as @PrimaryGeneratedColumn asks for, `now()`, or a
-- constant.
pub data Initial : Type 0 where
  generated now : Initial
  constant : Text → Initial

-- A property with @Column, or with one of its kin.
pub record Property : Type 0 where
  pub name : Text
  pub sql_type : SqlType
  pub nullable : Bool
  pub default_value : Option Initial
  pub primary : Bool

-- @ManyToOne with ON DELETE CASCADE, and the name that its @JoinColumn gives the column.
pub record Relation : Type 0 where
  pub join_column : Text
  pub target : Reference

-- @Entity(table), with the properties of its base class first; an index is unique or not.
pub record Entity : Type 0 where
  pub table : Text
  pub properties : List Property
  pub relations : List Relation
  pub indexes : List (Bool × List Text)

abbrev column : Text → SqlType → Property
column n t = record {
  name = n;
  sql_type = t;
  nullable = false;
  default_value = none;
  primary = false;
}

abbrev nullable_column : Text → SqlType → Property
nullable_column n t = record (column n t) { nullable = true }

abbrev default_column : Text → SqlType → Initial → Property
default_column n t d = record (column n t) { default_value = some d }

abbrev primary_column : Property → Property
primary_column p = record p { primary = true }

-- @CreateDateColumn and @UpdateDateColumn: the default is now().
abbrev date_column : Text → Property
date_column n = default_column n SqlType.timestamptz Initial.now

unfoldable pub base_entity : List Property
base_entity =
    primary_column (default_column (codes "id") SqlType.uuid Initial.generated)
    ∷ date_column (codes "createdAt")
    ∷ date_column (codes "updatedAt")
    ∷ nullable_column (codes "deletedAt") SqlType.timestamptz
    ∷ []

unfoldable pub order_entity : Entity
unfolding base_entity
order_entity = record {
  table = codes "orders";
  properties =
      base_entity
      ++ (column (codes "customerName") SqlType.text
          ∷ column (codes "amount") SqlType.numeric
          ∷ default_column (codes "status") SqlType.text
              (constant (order_status_text OrderStatus.pending))
          ∷ []);
  relations = [];
  indexes = [];
}

unfoldable pub outbox_entity : Entity
unfolding base_entity order_entity
outbox_entity = record {
  table = codes "outbox";
  properties =
      base_entity
      ++ (column (codes "orderId") SqlType.uuid
          ∷ column (codes "payload") SqlType.jsonb
          ∷ nullable_column (codes "stage") SqlType.text
          ∷ default_column (codes "processed") SqlType.boolean (constant (codes "false"))
          ∷ date_column (codes "availableAt")
          ∷ nullable_column (codes "processedAt") SqlType.timestamptz
          ∷ []);
  relations =
      record {
        join_column = codes "order_id";
        target = record { table = order_entity.table; column = codes "id" };
      }
      ∷ [];
  indexes = (false, codes "processed" ∷ codes "availableAt" ∷ []) ∷ [];
}

unfoldable pub order_stage_event_entity : Entity
order_stage_event_entity = record {
  table = codes "order_stage_events";
  properties =
      primary_column (default_column (codes "id") SqlType.bigint Initial.generated)
      ∷ column (codes "orderId") SqlType.uuid
      ∷ column (codes "stage") SqlType.text
      ∷ column (codes "status") SqlType.text
      ∷ default_column (codes "attempt") SqlType.int (constant (codes "1"))
      ∷ nullable_column (codes "detail") SqlType.text
      ∷ date_column (codes "createdAt")
      ∷ [];
  relations = [];
  indexes = (true, codes "orderId" ∷ codes "stage" ∷ codes "attempt" ∷ codes "status" ∷ []) ∷ [];
}

unfoldable pub stage_retry_entity : Entity
stage_retry_entity = record {
  table = codes "stage_retries";
  properties =
      primary_column (column (codes "orderId") SqlType.uuid)
      ∷ primary_column (column (codes "stage") SqlType.text)
      ∷ default_column (codes "retryCount") SqlType.int (constant (codes "0"))
      ∷ default_column (codes "status") SqlType.text (constant (codes "pending"))
      ∷ nullable_column (codes "lastError") SqlType.text
      ∷ [];
  relations = [];
  indexes = [];
}

-- The glob of `databaseOptions` finds these.
unfoldable pub entities : List Entity
entities = order_entity ∷ outbox_entity ∷ order_stage_event_entity ∷ stage_retry_entity ∷ []
