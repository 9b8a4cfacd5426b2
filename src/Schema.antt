-- ===== src/Schema.antt =====
-- What the statements of src/infrastructure/database/migrations ask of Postgres: tables with typed
-- columns, keys, indexes and rows, and the DDL that changes them. `none`: the server refuses.
pub mod Migrations
pub mod Reverting
pub mod Entities
pub mod Matching
pub mod Migrator
mod Reordering
use order_outbox_lab.Common.{
  ℕ, Bool, true, false, not, ◌&&◌, ◌||◌, List, [], ◌∷◌, ◌++◌, map, Option, none, some, Text,
  text_eq, keep, if◌then◌else◌,
}

pub data SqlType : Type 0 where
  uuid text numeric timestamptz jsonb boolean int bigint : SqlType

pub data Default : Type 0 where
  gen_random_uuid next_value now : Default
  literal : Text → Default

-- REFERENCES table(column) ON DELETE CASCADE
pub record Reference : Type 0 where
  pub table : Text
  pub column : Text

pub record Column : Type 0 where
  pub name : Text
  pub sql_type : SqlType
  pub nullable : Bool
  pub default_value : Option Default
  pub references : Option Reference

pub data Value : Type 0 where
  null : Value
  -- A `timestamptz`, in milliseconds.
  time : ℕ → Value
  other : Text → Value

-- A row lists its values in the order of the columns, an added column first.
pub record Table : Type 0 where
  pub name : Text
  pub columns : List Column
  pub primary_key : List Text
  pub uniques : List (List Text)
  pub rows : List (List Value)

pub record Index : Type 0 where
  pub name : Text
  pub table : Text
  pub columns : List Text

pub record Schema : Type 0 where
  pub tables : List Table
  pub indexes : List Index

pub data Statement : Type 0 where
  create_table : Table → Statement
  create_index : Index → Statement
  drop_table : Text → Statement
  drop_index : Text → Statement
  -- ALTER TABLE … ADD COLUMN …
  add_column : Text → Column → Statement
  -- ALTER TABLE … DROP COLUMN …
  drop_column : Text → Text → Statement
  -- UPDATE table SET column = source
  copy_column : Text → Text → Text → Statement

unfoldable pub member : Text → List Text → Bool
member n [] = false
member n (m ∷ ms) = text_eq m n || member n ms

unfoldable pub has_column : Text → List Column → Bool
has_column n [] = false
has_column n (c ∷ cs) = text_eq c.name n || has_column n cs

unfoldable pub find_table : Text → List Table → Option Table
find_table n [] = none
find_table n (t ∷ ts) = if text_eq t.name n then some t else find_table n ts

abbrev pub has_table : Text → List Table → Bool
has_table n ts = elim (find_table n ts) [ none ↦ false | some t ↦ true ]

unfoldable pub has_index : Text → List Index → Bool
has_index n [] = false
has_index n (i ∷ is) = text_eq i.name n || has_index n is

-- A foreign key refers to the one column of a primary key.
abbrev pub is_key : Text → Option Table → Bool
is_key n none = false
is_key n (some t) = elim t.primary_key [ [] ↦ false | k ∷ ks ↦ text_eq k n ]

unfoldable pub resolved : List Table → List Column → Bool
resolved ts [] = true
resolved ts (c ∷ cs) =
    elim c.references [ none ↦ true | some r ↦ is_key r.column (find_table r.table ts) ]
    && resolved ts cs

unfoldable pub refers_to : Text → List Column → Bool
refers_to n [] = false
refers_to n (c ∷ cs) =
    elim c.references [ none ↦ false | some r ↦ text_eq r.table n ] || refers_to n cs

-- Does another table refer to the one of this name?
unfoldable pub is_referred : Text → List Table → Bool
is_referred n [] = false
is_referred n (t ∷ ts) = (not (text_eq t.name n) && refers_to n t.columns) || is_referred n ts

abbrev pub map_some : {A B : Type 0} → (A → B) → Option A → Option B
map_some f none = none
map_some f (some a) = some (f a)

-- The table of this name, changed.
unfoldable pub alter : Text → (Table → Option Table) → List Table → Option (List Table)
alter n f [] = none
alter n f (t ∷ ts) =
    let rest = alter n f ts in
    if text_eq t.name n then map_some (λ u. u ∷ ts) (f t) else map_some (λ us. t ∷ us) rest

-- What ADD COLUMN writes to the rows that are there. A default that differs from row to row is
-- left out: the migrations add no such column.
abbrev pub filler : ℕ → Column → Option Value
filler at c = elim c.default_value [
  | none ↦ if c.nullable then some null else none
  | some Default.now ↦ some (time at)
  | some (literal t) ↦ some (other t)
  | some Default.gen_random_uuid ↦ none
  | some Default.next_value ↦ none
]

abbrev pub with_column : Column → Table → Value → Table
with_column c t v = record t { columns = c ∷ t.columns; rows = map (λ r. v ∷ r) t.rows }

unfoldable pub add_to : ℕ → Column → Table → Option Table
add_to at c t =
    if has_column c.name t.columns then none else map_some (with_column c t) (filler at c)

unfoldable pub drop_values : Text → List Column → List Value → List Value
drop_values n [] vs = vs
drop_values n (c ∷ cs) [] = []
drop_values n (c ∷ cs) (v ∷ vs) =
    let rest = drop_values n cs vs in if text_eq c.name n then rest else v ∷ rest

unfoldable pub in_uniques : Text → List (List Text) → Bool
in_uniques n [] = false
in_uniques n (u ∷ us) = member n u || in_uniques n us

-- A column of a key or of an index is left out: the migrations drop no such column.
unfoldable pub drop_from : Text → Table → Option Table
drop_from n t =
    if has_column n t.columns && not (member n t.primary_key) && not (in_uniques n t.uniques)
    then some (record t {
      columns = keep (λ c. not (text_eq c.name n)) t.columns;
      rows = map (drop_values n t.columns) t.rows;
    })
    else none

unfoldable pub value_of : Text → List Column → List Value → Value
value_of n [] vs = null
value_of n (c ∷ cs) [] = null
value_of n (c ∷ cs) (v ∷ vs) = if text_eq c.name n then v else value_of n cs vs

unfoldable pub set_value : Text → Value → List Column → List Value → List Value
set_value n x [] vs = vs
set_value n x (c ∷ cs) [] = []
set_value n x (c ∷ cs) (v ∷ vs) =
    let rest = set_value n x cs vs in if text_eq c.name n then x ∷ vs else v ∷ rest

unfoldable pub copy_in : Text → Text → Table → Option Table
copy_in to from t =
    if has_column to t.columns && has_column from t.columns
    then some
        (record t { rows = map (λ r. set_value to (value_of from t.columns r) t.columns r) t.rows })
    else none

unfoldable pub is_indexed : Text → Text → List Index → Bool
is_indexed n c [] = false
is_indexed n c (i ∷ is) = (text_eq i.table n && member c i.columns) || is_indexed n c is

abbrev pub with_tables : Schema → List Table → Schema
with_tables s ts = record s { tables = ts }

-- One statement, at the time `at`. Dropping a table drops its indexes.
unfoldable pub run : ℕ → Statement → Schema → Option Schema
run at (create_table t) s =
    if not (has_table t.name s.tables)
      && not (has_index t.name s.indexes)
      && resolved s.tables t.columns
    then some (with_tables s (t ∷ s.tables))
    else none
run at (create_index i) s =
    if not (has_table i.name s.tables)
      && not (has_index i.name s.indexes)
      && has_table i.table s.tables
    then some (record s { indexes = i ∷ s.indexes })
    else none
run at (drop_table n) s =
    if has_table n s.tables && not (is_referred n s.tables)
    then some (record {
      tables = keep (λ t. not (text_eq t.name n)) s.tables;
      indexes = keep (λ i. not (text_eq i.table n)) s.indexes;
    })
    else none
run at (drop_index n) s =
    if has_index n s.indexes
    then some (record s { indexes = keep (λ i. not (text_eq i.name n)) s.indexes })
    else none
run at (add_column n c) s = map_some (with_tables s) (alter n (add_to at c) s.tables)
run at (drop_column n c) s =
    if is_indexed n c s.indexes
    then none
    else map_some (with_tables s) (alter n (drop_from c) s.tables)
run at (copy_column n to from) s = map_some (with_tables s) (alter n (copy_in to from) s.tables)

abbrev pub and_then : {A B : Type 0} → (A → Option B) → Option A → Option B
and_then f none = none
and_then f (some a) = f a

-- In order; the first refusal undoes all.
unfoldable pub run_all : ℕ → List Statement → Schema → Option Schema
run_all at [] s = some s
run_all at (x ∷ xs) s = and_then (run_all at xs) (run at x s)
