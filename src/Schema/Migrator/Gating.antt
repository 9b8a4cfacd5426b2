-- ===== src/Schema/Migrator/Gating.antt =====
-- The exit code and the log of migrate.ts, beside the database that its run leaves.
use order_outbox_lab.Common.{
  ℕ, ◌≡◌, refl, ◌⊎◌, inl, inr, Bool-cases, List, [], ◌∷◌, ◌++◌, some, Text, codes, text_eq, keep,
  arith,
}
use order_outbox_lab.Effects.{Result, ok, err}
use order_outbox_lab.Schema.{Schema, run_all, member}
use order_outbox_lab.Schema.Reverting.{no_schema, audited, ddl}
use order_outbox_lab.Schema.Migrator.{
  migrations, Database, pending, names_of, statements_of, Ran, rolled_back, committed, lost,
  DataSource, Exit, report, end_main, after_run, after_initialize, migrate_main,
}

-- The migrations that were not recorded, all of them applied and recorded.
abbrev pub migrated : Database → Schema → Database
migrated d s = record { schema = s; applied = names_of (pending d) ++ d.applied }

pending-migrated : (d : Database) (s : Schema) → pending (migrated d s) ≡ []
unfolding pending migrations keep member text_eq
pending-migrated d s = elim (Bool-cases (member (codes "InitSchema1700000000000") d.applied)) [
  | inl p ↦ elim (Bool-cases (member (codes "AddAuditColumns1790176533219") d.applied)) [
    | inl q ↦ ground (arith, p, q)
    | inr q ↦ ground (arith, p, q)
  ]
  | inr p ↦ elim (Bool-cases (member (codes "AddAuditColumns1790176533219") d.applied)) [
    | inl q ↦ ground (arith, p, q)
    | inr q ↦ ground (arith, p, q)
  ]
]

-- The database as it was, or with every migration that was not recorded.
abbrev pub Whole : Database → Database → Type 0
Whole d d' =
    (d' ≡ d)
    ⊎ ((at : ℕ) × (run_all at (statements_of (pending d)) d.schema ≡ some d'.schema)
        × (d'.applied ≡ names_of (pending d) ++ d.applied))

-- Code 0: no migration is left, and what it printed; code 1: nothing or everything was applied.
abbrev pub Gates : Database → Exit × Database → Type 0
Gates d (x, d') =
    ((x.code ≡ 0)
      × (pending d' ≡ [])
      × (x.log ≡ report (names_of (pending d)) ∷ [])
      × ((at : ℕ) × (run_all at (statements_of (pending d)) d.schema ≡ some d'.schema)))
    ⊎ ((x.code ≡ 1) × Whole d d')

end_main-Gates :
    (d : Database) (at : ℕ) (s : Schema) (r : Result (Unit {0}))
    → run_all at (statements_of (pending d)) d.schema ≡ some s
    → Gates d (end_main (report (names_of (pending d)) ∷ []) r, migrated d s)
end_main-Gates d at s (ok x) run = inl (refl, pending-migrated d s, refl, (at, run))
end_main-Gates d at s (err e) run = inr (refl, inr (at, run, refl))

after_run-Gates :
    (source : DataSource) (d : Database) (r : Result (List Text) × Database)
    → Ran d r
    → Gates d (after_run source r)
after_run-Gates source d _ (rolled_back e) = inr (refl, inl refl)
after_run-Gates source d _ (lost at s e run) = inr (refl, inr (at, run, refl))
after_run-Gates source d _ (committed at s run) =
    end_main-Gates d at s (source.destroy (migrated d s)) run

after_initialize-Gates :
    (source : DataSource) (d : Database) (r : Result (Unit {0}))
    → Gates d (after_initialize source d r)
after_initialize-Gates source d (ok x) =
    after_run-Gates source d (source.run_migrations d) (source.all_or_nothing d)
after_initialize-Gates source d (err e) = inr (refl, inl refl)

-- Either the migrator exits with code 0, and then the migrations that were not recorded have been
-- applied, none is left, and it has printed their names or that the database is up to date; or it exits
-- with code 1, and then it has applied and recorded all of them or left the database as it was.
pub migrate_main-Gates : (source : DataSource) (d : Database) → Gates d (migrate_main source d)
unfolding migrate_main
migrate_main-Gates source d = after_initialize-Gates source d (source.initialize d)

abbrev pub empty_database : Database
empty_database = record { schema = no_schema; applied = [] }

-- Run on an empty database, the migrations that are not recorded make the four tables with their
-- audit columns.
pub run_all-empty :
    (at : ℕ)
    → run_all at (statements_of (pending empty_database)) no_schema ≡ some (audited [] [] [] [])
unfolding ddl pending migrations
run_all-empty at = refl
