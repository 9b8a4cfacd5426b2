-- ===== src/Schema/Migrator.antt =====
-- src/infrastructure/database: the options of the data source, and `main` of migrate.ts, the one-shot
-- migrator that the app containers wait for.
pub mod Gating
use order_outbox_lab.Common.{
  ℕ, ◌≡◌, ◌⊎◌, Bool, true, false, not, List, [], ◌∷◌, ◌++◌, map, Option, some, none, Text, codes,
  text_eq, keep, if◌then◌else◌,
}
use order_outbox_lab.Effects.{Error, Result, ok, err}
use order_outbox_lab.Schema.{Statement, Schema, member, run_all}
use order_outbox_lab.Schema.Migrations.{init_up, audit_up}

-- `__filename.endsWith('.ts') ? 'ts' : 'js'`
unfoldable pub ends_with : Text → Text → Bool
ends_with suffix [] = text_eq suffix []
ends_with suffix (c ∷ s) =
    let rest = ends_with suffix s in if text_eq suffix (c ∷ s) then true else rest

unfoldable pub source_ext : Text → Text
source_ext file = if ends_with (codes ".ts") file then codes "ts" else codes "js"

pub record DatabaseOptions : Type 0 where
  pub url : Text
  pub entities : Text
  pub synchronize : Bool

-- `dir` is `__dirname`, and `file` is `__filename` of database.constants.
unfoldable pub database_options : Text → Text → Text → DatabaseOptions
database_options dir file url = record {
  url = url;
  entities = dir ++ (codes "/../../**/*.entity." ++ source_ext file);
  synchronize = false;
}

pub record DataSourceOptions : Type 0 where
  pub options : DatabaseOptions
  pub migrations : Text

unfoldable pub create_data_source : Text → Text → Text → DataSourceOptions
create_data_source dir file url = record {
  options = database_options dir file url;
  migrations = dir ++ (codes "/migrations/*." ++ source_ext file);
}

pub record Migration : Type 0 where
  pub name : Text
  pub up : List Statement

unfoldable pub migrations : List Migration
migrations =
    record { name = codes "InitSchema1700000000000"; up = init_up }
    ∷ record { name = codes "AddAuditColumns1790176533219"; up = audit_up }
    ∷ []

-- The database: its schema, and the names in the table that records the migrations.
pub record Database : Type 0 where
  pub schema : Schema
  pub applied : List Text

unfoldable pub pending : Database → List Migration
pending d = keep (λ m. not (member m.name d.applied)) migrations

abbrev pub names_of : List Migration → List Text
names_of = map (λ m. m.name)

abbrev pub statements_of : List Migration → List Statement
statements_of [] = []
statements_of (m ∷ ms) = m.up ++ statements_of ms

-- What `runMigrations({ transaction: 'all' })` did.
pub data Ran (d : Database) : Result (List Text) × Database → Type 0 where
  rolled_back : (e : Error) → Ran d (err e, d)
  committed :
      (at : ℕ) (s : Schema)
      → run_all at (statements_of (pending d)) d.schema ≡ some s
      → Ran d (
        ok (names_of (pending d)),
        record { schema = s; applied = names_of (pending d) ++ d.applied },
      )
  -- The reply to the COMMIT is lost.
  lost :
      (at : ℕ) (s : Schema) (e : Error)
      → run_all at (statements_of (pending d)) d.schema ≡ some s
      → Ran d (err e, record { schema = s; applied = names_of (pending d) ++ d.applied })

-- TypeORM's `DataSource`: it runs the migrations that are not recorded, in order and in one
-- transaction, and records them.
pub record DataSource : Type 0 where
  pub initialize : Database → Result (Unit {0})
  pub run_migrations : Database → Result (List Text) × Database
  pub destroy : Database → Result (Unit {0})
  pub all_or_nothing : (d : Database) → Ran d (run_migrations d)

-- What the process prints, and its exit code.
pub record Exit : Type 0 where
  pub log : List Text
  pub failed : Bool
  pub code : ℕ

unfoldable pub join_names : List Text → Text
join_names [] = []
join_names (n ∷ []) = n
join_names (n ∷ m ∷ ns) = n ++ (codes ", " ++ join_names (m ∷ ns))

unfoldable pub report : List Text → Text
report [] = codes "migrations: already up to date"
report (n ∷ ns) = codes "migrations applied: " ++ join_names (n ∷ ns)

-- `main().catch(...)`: what was logged before the error stays.
abbrev failure : List Text → Exit
failure log = record { log = log; failed = true; code = 1 }

abbrev end_main : List Text → Result (Unit {0}) → Exit
end_main log (ok x) = record { log = log; failed = false; code = 0 }
end_main log (err e) = failure log

abbrev after_run : DataSource → Result (List Text) × Database → Exit × Database
after_run source (ok names, d) = (end_main (report names ∷ []) (source.destroy d), d)
after_run source (err e, d) = (failure [], d)

abbrev after_initialize : DataSource → Database → Result (Unit {0}) → Exit × Database
after_initialize source d (ok x) = after_run source (source.run_migrations d)
after_initialize source d (err e) = (failure [], d)

unfoldable pub migrate_main : DataSource → Database → Exit × Database
migrate_main source d = after_initialize source d (source.initialize d)
