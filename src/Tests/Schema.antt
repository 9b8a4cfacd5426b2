-- ===== src/Tests/Schema.antt =====
-- The migrations on two rows, and the entities with one naming strategy.
use order_outbox_lab.Common.{
  ◌≡◌, refl, false, List, [], ◌∷◌, Option, some, none, Text, codes, text_eq,
}
use order_outbox_lab.Effects.{Error, Result, ok, err}
use order_outbox_lab.Schema.Migrator.{
  Database, pending, names_of, statements_of, Ran, DataSource, migrations, migrate_main, join_names,
  report, create_data_source, source_ext, ends_with,
}
use order_outbox_lab.Schema.Migrator.Gating.{migrated, Gates, migrate_main-Gates, empty_database}
use order_outbox_lab.Schema.{Value, time, other, Schema, run_all}
use order_outbox_lab.Schema.Migrations.{init_up, init_down, audit_up, audit_down}
use order_outbox_lab.Schema.Reverting.{no_schema, init_schema, audited, migrations-down, ddl}
use order_outbox_lab.Schema.Matching.{AreMatched}
use order_outbox_lab.Schema.Matching.Tables.{entities-AreMatched}
use order_outbox_lab.Samples.Naming.{sample_naming}

abbrev an_order : List Value
an_order =
    other (codes "1")
    ∷ other (codes "Ada")
    ∷ other (codes "42")
    ∷ other (codes "pending")
    ∷ time 5
    ∷ []

abbrev some_orders : List (List Value)
some_orders = an_order ∷ []

migrations-down_example :
    (run_all 9 init_up no_schema ≡ some (init_schema [] [] [] []))
    × (run_all 9 audit_up (init_schema some_orders [] [] []) ≡ some (audited some_orders [] [] []))
    × (run_all 9 audit_down (audited some_orders [] [] [])
        ≡ some (init_schema some_orders [] [] []))
    × (run_all 9 init_down (init_schema some_orders [] [] []) ≡ some no_schema)
migrations-down_example = migrations-down 9 some_orders [] [] []

entities-AreMatched_example :
    (s : Schema) × (run_all 9 audit_up (init_schema some_orders [] [] []) ≡ some s)
    × AreMatched sample_naming s
entities-AreMatched_example = entities-AreMatched sample_naming 9 some_orders [] [] []

-- A server that always answers, and the migrator on an empty database.
abbrev ran : Database → Option Schema → Result (List Text) × Database
ran d none = (err Error.unavailable, d)
ran d (some s) = (ok (names_of (pending d)), migrated d s)

ran-Ran :
    (d : Database) (s : Option Schema)
    → run_all 9 (statements_of (pending d)) d.schema ≡ s
    → Ran d (ran d s)
ran-Ran d none h = Ran.rolled_back Error.unavailable
ran-Ran d (some s) h = Ran.committed 9 s h

abbrev live_source : DataSource
live_source = record {
  initialize = λ d. ok tt;
  run_migrations = λ d. ran d (run_all 9 (statements_of (pending d)) d.schema);
  destroy = λ d. ok tt;
  all_or_nothing = λ d. ran-Ran d _ refl;
}

first_run : migrate_main live_source empty_database ≡ (
  record {
    log = codes "migrations applied: InitSchema1700000000000, AddAuditColumns1790176533219" ∷ [];
    failed = false;
    code = 0;
  },
  migrated empty_database (audited [] [] [] []),
)
unfolding ddl migrate_main pending migrations join_names report
first_run = refl

migrate_main-Gates_example : Gates empty_database (migrate_main live_source empty_database)
migrate_main-Gates_example = migrate_main-Gates live_source empty_database

options :
    (create_data_source (codes "/app") (codes "/app/constants.js") (codes "db")).migrations
    ≡ codes "/app/migrations/*.js"
unfolding create_data_source source_ext ends_with text_eq
options = refl
