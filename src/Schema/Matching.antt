-- ===== src/Schema/Matching.antt =====
-- The entities of src/modules beside the tables of src/infrastructure/database/migrations.
pub mod Tables
use order_outbox_lab.Common.{
  ℕ, ◌≡◌, refl, Bool, true, false, not, ◌&&◌, ◌||◌, List, [], ◌∷◌, ◌++◌, map, Option, none, some,
  Text, text_eq, codes, All, Memᴰ, leb, Permᴰ, ite, sym, subst, inl, inr, Option-cases, arith,
  ℕ_discrete, if◌then◌else◌,
}
use order_outbox_lab.Schema.{
  SqlType, Default, literal, Value, map_some, Reference, Column, Table, Index, Schema, find_table,
  run_all, member,
}
use order_outbox_lab.Schema.Migrations.{
  audit_up, orders_table, outbox_table, outbox_index, stage_events_table, stage_retries_table,
}
use order_outbox_lab.Schema.Reverting.{audited, init_schema, audited_table, audit-up}
use order_outbox_lab.Schema.Entities.{
  Initial, constant, Property, Relation, Entity, base_entity, order_entity, outbox_entity,
  order_stage_event_entity, stage_retry_entity, entities,
}
use order_outbox_lab.Stages.Handlers.{upper_first}
use order_outbox_lab.Queries.{order_status_text}
use order_outbox_lab.Schema.Reordering.{take_out, reorders, reorders-Permᴰ}

-- The words of a camelCase name, and of a snake_case one.
abbrev pub camel : Text → List Text → Text
camel first [] = first
camel first (w ∷ ws) = first ++ camel (upper_first w) ws

abbrev pub snake : Text → List Text → Text
snake first [] = first
snake first (w ∷ ws) = first ++ (codes "_" ++ snake w ws)

unfoldable pub is_lower : Text → Bool
is_lower [] = true
is_lower (c ∷ s) = leb b'a' c && leb c b'z' && is_lower s

-- A word has a letter, and no letter that is not in lower case.
abbrev pub is_word : Text → Bool
is_word [] = false
is_word (c ∷ s) = is_lower (c ∷ s)

-- `SnakeNamingStrategy.columnName` of typeorm-naming-strategies, on a camelCase name of words.
pub record NamingStrategy : Type 0 where
  pub column_name : Text → Text
  pub snake_case :
      (first : Text) (words : List Text)
      → All (λ w. is_word w ≡ true) (first ∷ words)
      → column_name (camel first words) ≡ snake first words

-- What a property and a column have in common.
pub record Described : Type 0 where
  pub name : Text
  pub sql_type : SqlType
  pub nullable : Bool
  pub default_value : Option Initial

-- `gen_random_uuid()` and the next value of a sequence are generated values.
abbrev pub initial_of : Default → Initial
initial_of Default.gen_random_uuid = Initial.generated
initial_of Default.next_value = Initial.generated
initial_of Default.now = Initial.now
initial_of (literal text) = constant text

unfoldable pub Described-discrete : Discrete Described
unfolding ℕ_discrete
Described-discrete = hlevel ℕ_discrete

abbrev pub described_column : Column → Described
described_column c = record {
  name = c.name;
  sql_type = c.sql_type;
  nullable = c.nullable;
  default_value = map_some initial_of c.default_value;
}

abbrev pub same_kind : Bool → Bool → Bool
same_kind true unique = unique
same_kind false unique = not unique

-- The columns of a table that REFERENCES another, ON DELETE CASCADE.
abbrev pub foreign_key : Text → Option Reference → List Relation
foreign_key n none = []
foreign_key n (some r) = record { join_column = n; target = r } ∷ []

abbrev pub foreign_keys : List Column → List Relation
foreign_keys [] = []
foreign_keys (c ∷ cs) = foreign_key c.name c.references ++ foreign_keys cs

-- The columns of the indexes of a table.
abbrev pub indexes_of : Text → List Index → List (List Text)
indexes_of n [] = []
indexes_of n (i ∷ is) = if text_eq i.table n then i.columns ∷ indexes_of n is else indexes_of n is

module _ (naming : NamingStrategy) where
  abbrev pub described : Property → Described
  described p = record {
    name = naming.column_name p.name;
    sql_type = p.sql_type;
    nullable = p.nullable;
    default_value = p.default_value;
  }

  abbrev pub key_of_properties : List Property → List Text
  key_of_properties [] = []
  key_of_properties (p ∷ ps) =
      if p.primary then naming.column_name p.name ∷ key_of_properties ps else key_of_properties ps

  -- The indexes of an entity that are unique, or those that are not.
  abbrev pub index_columns : Bool → List (Bool × List Text) → List (List Text)
  index_columns kind [] = []
  index_columns kind ((unique, properties) ∷ indexes) =
      if same_kind kind unique
      then map naming.column_name properties ∷ index_columns kind indexes
      else index_columns kind indexes

  -- The columns that the migrations give the table of an entity are the properties in another order,
  -- the keys are the same, and each relation is a foreign key.
  pub record Matches (indexes : List Index) (e : Entity) (t : Table) : Type 0 where
    pub columns : Permᴰ (map described e.properties) (map described_column t.columns)
    pub key : key_of_properties e.properties ≡ t.primary_key
    pub uniques : index_columns true e.indexes ≡ t.uniques
    pub relations : All (λ r. Memᴰ r (foreign_keys t.columns)) e.relations
    pub plain : index_columns false e.indexes ≡ indexes_of t.name indexes

abbrev pub AreMatched : NamingStrategy → Schema → Type 0
AreMatched naming s =
    All (λ e. (t : Table) × (find_table e.table s.tables ≡ some t) × Matches naming s.indexes e t)
      entities
