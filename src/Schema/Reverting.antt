-- ===== src/Schema/Reverting.antt =====
-- The tables after each migration, and after its `down`.
use order_outbox_lab.Common.{
  ℕ, ◌≡◌, refl, false, List, [], ◌∷◌, map, some, Text, text_eq, codes, keep, arith,
}
use order_outbox_lab.Schema.{
  Value, null, time, SqlType, Column, Table, Schema, run, run_all, member, has_column, find_table,
  has_index, resolved, refers_to, is_referred, alter, add_to, drop_values, in_uniques, drop_from,
  value_of, set_value, copy_in, is_indexed,
}
use order_outbox_lab.Schema.Migrations.{
  orders_table, outbox_table, outbox_index, stage_events_table, stage_retries_table, init_up,
  init_down, audit_up, audit_down, optional, timestamp_now,
}

abbrev Rows : Type 0
Rows = List (List Value)

abbrev pub no_schema : Schema
no_schema = record { tables = []; indexes = [] }

-- The schema after InitSchema, with these rows.
abbrev pub init_schema : Rows → Rows → Rows → Rows → Schema
init_schema orders outbox events retries = record {
  tables =
      record stage_retries_table { rows = retries }
      ∷ record stage_events_table { rows = events }
      ∷ record outbox_table { rows = outbox }
      ∷ record orders_table { rows = orders }
      ∷ [];
  indexes = outbox_index ∷ [];
}

unfoldable pub ddl : Unit {0}
unfolding run run_all member has_column find_table has_index resolved refers_to is_referred alter
    add_to drop_values in_uniques drop_from value_of set_value copy_in is_indexed text_eq keep
    init_up init_down audit_up audit_down
ddl = tt

init-up : (at : ℕ) → run_all at init_up no_schema ≡ some (init_schema [] [] [] [])
unfolding ddl
init-up at = refl

init-down :
    (at : ℕ) (orders outbox events retries : Rows)
    → run_all at init_down (init_schema orders outbox events retries) ≡ some no_schema
unfolding ddl
init-down at orders outbox events retries = refl

-- `deleted_at` is null, and `updated_at` is the row's own `created_at`.
abbrev pub audited_row : List Column → List Value → List Value
audited_row columns r = null ∷ value_of (codes "created_at") columns r ∷ r

-- The schema after AddAuditColumns.
abbrev pub audited_table : Table → Table
audited_table t = record t {
  columns =
      optional (codes "deleted_at") SqlType.timestamptz
      ∷ timestamp_now (codes "updated_at")
      ∷ t.columns;
  rows = map (audited_row t.columns) t.rows;
}

abbrev pub audited : Rows → Rows → Rows → Rows → Schema
audited orders outbox events retries = record {
  tables =
      record stage_retries_table { rows = retries }
      ∷ record stage_events_table { rows = events }
      ∷ audited_table (record outbox_table { rows = outbox })
      ∷ audited_table (record orders_table { rows = orders })
      ∷ [];
  indexes = outbox_index ∷ [];
}

-- Dropping a column that is not there drops no value.
drop_values-absent :
    (n : Text) (columns : List Column) (r : List Value)
    → has_column n columns ≡ false
    → drop_values n columns r ≡ r
unfolding drop_values has_column
drop_values-absent n [] r h = refl
drop_values-absent n (c ∷ cs) [] h = refl
drop_values-absent n (c ∷ cs) (v ∷ vs) h = ground (arith, drop_values-absent n cs vs)

-- The three statements on one table.
abbrev fill_and_copy : ℕ → List Column → Rows → Rows
fill_and_copy at columns rows =
    let deleted = optional (codes "deleted_at") SqlType.timestamptz in
    let updated = timestamp_now (codes "updated_at") in
    map
      (λ r.
        set_value (codes "updated_at")
          (value_of (codes "created_at") (deleted ∷ updated ∷ columns) r)
          (deleted ∷ updated ∷ columns) r)
      (map (λ r. null ∷ r) (map (λ r. time at ∷ r) rows))

fill_and_copy-eq :
    (at : ℕ) (columns : List Column) (rows : Rows)
    → fill_and_copy at columns rows ≡ map (audited_row columns) rows
unfolding ddl
fill_and_copy-eq at columns [] = refl
fill_and_copy-eq at columns (r ∷ rs) = cc (fill_and_copy-eq at columns rs)

pub audit-up :
    (at : ℕ) (orders outbox events retries : Rows)
    → run_all at audit_up (init_schema orders outbox events retries)
      ≡ some (audited orders outbox events retries)
unfolding ddl
audit-up at orders outbox events retries =
    rw
      (
        ← fill_and_copy-eq at orders_table.columns orders,
        ← fill_and_copy-eq at outbox_table.columns outbox,
      )
      refl

-- The two DROP COLUMN on one table.
abbrev drop_both : List Column → Rows → Rows
drop_both columns rows =
    let deleted = optional (codes "deleted_at") SqlType.timestamptz in
    let updated = timestamp_now (codes "updated_at") in
    map (drop_values (codes "updated_at") (updated ∷ columns)) (
      map (drop_values (codes "deleted_at") (deleted ∷ updated ∷ columns))
        (map (audited_row columns) rows))

drop_both-eq :
    (columns : List Column) (rows : Rows)
    → has_column (codes "updated_at") columns ≡ false
    → has_column (codes "deleted_at") columns ≡ false
    → drop_both columns rows ≡ rows
unfolding drop_values text_eq
drop_both-eq columns [] h k = refl
drop_both-eq columns (r ∷ rs) h k = cc (
  drop_both-eq columns rs h k,
  drop_values-absent (codes "updated_at") columns (drop_values (codes "deleted_at") columns r) h,
  drop_values-absent (codes "deleted_at") columns r k,
)

audit-down :
    (at : ℕ) (orders outbox events retries : Rows)
    → run_all at audit_down (audited orders outbox events retries)
      ≡ some (init_schema orders outbox events retries)
unfolding ddl
audit-down at orders outbox events retries =
    rw
      (
        drop_both-eq orders_table.columns orders refl refl,
        drop_both-eq outbox_table.columns outbox refl refl,
      )
      refl

-- On an empty database InitSchema makes the four tables, and AddAuditColumns, run at any time on any
-- rows, keeps every row and its values, leaves `deleted_at` null, and sets `updated_at` to the
-- `created_at` of the row and not to that time. The `down` of each takes the schema and all rows back to
-- what they were, and no statement is refused.
pub migrations-down :
    (at : ℕ) (orders outbox events retries : Rows)
    → (run_all at init_up no_schema ≡ some (init_schema [] [] [] []))
      × (run_all at audit_up (init_schema orders outbox events retries)
          ≡ some (audited orders outbox events retries))
      × (run_all at audit_down (audited orders outbox events retries)
          ≡ some (init_schema orders outbox events retries))
      × (run_all at init_down (init_schema orders outbox events retries) ≡ some no_schema)
migrations-down at orders outbox events retries = (
  init-up at,
  audit-up at orders outbox events retries,
  audit-down at orders outbox events retries,
  init-down at orders outbox events retries,
)
