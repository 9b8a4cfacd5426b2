-- ===== src/Schema/Migrations.antt =====
-- The two migrations of src/infrastructure/database/migrations as statements, in their order.
use order_outbox_lab.Common.{true, false, List, [], ◌∷◌, ◌++◌, Option, none, some, Text, codes}
use order_outbox_lab.Schema.{
  SqlType, Default, literal, Column, Table, Index, Statement, create_table, create_index,
  drop_table, drop_index, add_column, drop_column, copy_column,
}

abbrev required : Text → SqlType → Option Default → Column
required n t d = record {
  name = n;
  sql_type = t;
  nullable = false;
  default_value = d;
  references = none;
}

abbrev pub optional : Text → SqlType → Column
optional n t = record {
  name = n;
  sql_type = t;
  nullable = true;
  default_value = none;
  references = none;
}

-- "order_id" uuid NOT NULL REFERENCES "orders"("id") ON DELETE CASCADE
abbrev order_reference : Column
order_reference = record (required (codes "order_id") SqlType.uuid none) {
  references = some (record { table = codes "orders"; column = codes "id" });
}

abbrev generated_id : Column
generated_id = required (codes "id") SqlType.uuid (some Default.gen_random_uuid)

abbrev pub timestamp_now : Text → Column
timestamp_now n = required n SqlType.timestamptz (some Default.now)

abbrev pub orders_table : Table
orders_table = record {
  name = codes "orders";
  columns =
      generated_id
      ∷ required (codes "customer_name") SqlType.text none
      ∷ required (codes "amount") SqlType.numeric none
      ∷ required (codes "status") SqlType.text (some (literal (codes "pending")))
      ∷ timestamp_now (codes "created_at")
      ∷ [];
  primary_key = codes "id" ∷ [];
  uniques = [];
  rows = [];
}

abbrev pub outbox_table : Table
outbox_table = record {
  name = codes "outbox";
  columns =
      generated_id
      ∷ order_reference
      ∷ required (codes "payload") SqlType.jsonb none
      ∷ optional (codes "stage") SqlType.text
      ∷ required (codes "processed") SqlType.boolean (some (literal (codes "false")))
      ∷ timestamp_now (codes "created_at")
      ∷ timestamp_now (codes "available_at")
      ∷ optional (codes "processed_at") SqlType.timestamptz
      ∷ [];
  primary_key = codes "id" ∷ [];
  uniques = [];
  rows = [];
}

abbrev pub outbox_index : Index
outbox_index = record {
  name = codes "idx_outbox_claimable";
  table = codes "outbox";
  columns = codes "processed" ∷ codes "available_at" ∷ [];
}

-- A `bigserial` is a `bigint` with the next value of a sequence as its default.
abbrev pub stage_events_table : Table
stage_events_table = record {
  name = codes "order_stage_events";
  columns =
      required (codes "id") SqlType.bigint (some Default.next_value)
      ∷ order_reference
      ∷ required (codes "stage") SqlType.text none
      ∷ required (codes "status") SqlType.text none
      ∷ required (codes "attempt") SqlType.int (some (literal (codes "1")))
      ∷ optional (codes "detail") SqlType.text
      ∷ timestamp_now (codes "created_at")
      ∷ [];
  primary_key = codes "id" ∷ [];
  uniques = (codes "order_id" ∷ codes "stage" ∷ codes "attempt" ∷ codes "status" ∷ []) ∷ [];
  rows = [];
}

abbrev pub stage_retries_table : Table
stage_retries_table = record {
  name = codes "stage_retries";
  columns =
      order_reference
      ∷ required (codes "stage") SqlType.text none
      ∷ required (codes "retry_count") SqlType.int (some (literal (codes "0")))
      ∷ required (codes "status") SqlType.text (some (literal (codes "pending")))
      ∷ optional (codes "last_error") SqlType.text
      ∷ [];
  primary_key = codes "order_id" ∷ codes "stage" ∷ [];
  uniques = [];
  rows = [];
}

-- InitSchema1700000000000
unfoldable pub init_up : List Statement
init_up =
    create_table orders_table
    ∷ create_table outbox_table
    ∷ create_index outbox_index
    ∷ create_table stage_events_table
    ∷ create_table stage_retries_table
    ∷ []

unfoldable pub init_down : List Statement
init_down =
    drop_table (codes "stage_retries")
    ∷ drop_table (codes "order_stage_events")
    ∷ drop_index (codes "idx_outbox_claimable")
    ∷ drop_table (codes "outbox")
    ∷ drop_table (codes "orders")
    ∷ []

-- AddAuditColumns1790176533219
abbrev pub add_audit : Text → List Statement
add_audit table =
    add_column table (timestamp_now (codes "updated_at"))
    ∷ add_column table (optional (codes "deleted_at") SqlType.timestamptz)
    ∷ copy_column table (codes "updated_at") (codes "created_at")
    ∷ []

abbrev pub drop_audit : Text → List Statement
drop_audit table =
    drop_column table (codes "deleted_at") ∷ drop_column table (codes "updated_at") ∷ []

unfoldable pub audit_up : List Statement
audit_up = add_audit (codes "orders") ++ add_audit (codes "outbox")

unfoldable pub audit_down : List Statement
audit_down = drop_audit (codes "outbox") ++ drop_audit (codes "orders")
