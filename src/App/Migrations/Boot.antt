-- ===== src/App/Migrations/Boot.antt =====
-- The tables that the application creates when it comes up (backend/app/main.py), and the revisions.
use orca_validator.Prelude.{◌≡◌, refl, ap, List, [], ◌∷◌, Text, lit, Failure, ok, err, Exec}
use orca_validator.App.Migrations.{
  Op, create_table, Postgres, IsPostgres, execute_all, in_transaction, run_migrations,
}
use orca_validator.App.Migrations.Revisions.{history, documents_table}
use orca_validator.App.Migrations.RoundTrip.{upgrades, in_transaction-returns}

-- The tables of `Base.metadata` (backend/models/__init__.py).
abbrev pub metadata_tables : List Text
metadata_tables =
    lit "documents"
    ∷ lit "visits"
    ∷ lit "validation_runs"
    ∷ lit "validation_results"
    ∷ lit "machine_snapshots"
    ∷ []

module _ (pg : Postgres) where
  -- `conn.run_sync(Base.metadata.create_all)`, in a transaction
  unfoldable pub create_tables : Exec pg.Schema (Unit {0})
  create_tables = in_transaction pg (pg.create_all metadata_tables)

  -- The first operation raises.
  run_migrations-first :
      (op : Op) (ops : List Op) (s : pg.Schema) (e : Failure)
      → pg.execute op s ≡ (err e, s)
      → run_migrations pg (op ∷ ops) s ≡ (err e, s)
  unfolding run_migrations execute_all in_transaction
  run_migrations-first op ops s e h = rw (h, run_migrations, in_transaction, execute_all) refl

  -- Where the database does what is documented: on a database that the application has come up with,
  -- the upgrade over all revisions raises, and leaves the schema as the application made it.
  pub run_migrations-create_tables :
      (laws : IsPostgres pg) (s s' : pg.Schema)
      → create_tables s ≡ (ok tt, s')
      → (e : Failure) × (run_migrations pg (upgrades history) s' ≡ (err e, s'))
  unfolding create_tables
  run_migrations-create_tables laws s s' e =
      let made = in_transaction-returns pg (pg.create_all metadata_tables) s s' e in
      let there = laws.all_created metadata_tables (lit "documents") s (ap (λ r. r.0) made) refl in
      let (f, raised) = laws.not_twice documents_table s' (rw (ap (λ r. r.1) made) at there) in
      (f, run_migrations-first (create_table documents_table) _ s' f raised)
