-- ===== src/App/Migrations.antt =====
-- migrations/env.py: the revisions of the schema, run in one transaction. The database is given.
pub mod Revisions
pub mod RoundTrip
pub mod Boot
use orca_validator.Prelude.{
  ℕ, ◌≡◌, Bool, true, false, List, [], ◌∷◌, ◌++◌, Option, Text, any, text_eq, Failure, Result, ok,
  err, Exec, pure, ◌>>=◌, ◌>>◌,
}

pub data SqlType : Type 0 where
  uuid text date_time jsonb float : SqlType
  string : ℕ → SqlType

pub record Column : Type 0 where
  pub name : Text
  pub sql_type : SqlType
  pub nullable : Bool
  pub server_default : Option Text

-- A foreign key is a column, and the column that it refers to.
pub record Table : Type 0 where
  pub name : Text
  pub columns : List Column
  pub foreign_keys : List (Text × Text)
  pub primary_key : Text

pub record Index : Type 0 where
  pub name : Text
  pub table : Text
  pub column : Text
  pub unique : Bool

-- The operations of alembic's `op` that the revisions use.
pub data Op : Type 0 where
  create_table : Table → Op
  drop_table : Text → Op
  create_index : Index → Op
  drop_index : Text → Text → Op
  add_column : Text → Column → Op
  drop_column : Text → Text → Op

pub record Revision : Type 0 where
  pub revision : Text
  pub down_revision : Option Text
  pub upgrade : List Op
  pub downgrade : List Op

-- PostgreSQL with SQLAlchemy: what an operation does to a schema, and `Base.metadata.create_all` of
-- the tables that have these names.
pub record Postgres : Type 1 where
  pub Schema : Type 0
  pub has_table : Text → Schema → Bool
  pub execute : Op → Exec Schema (Unit {0})
  pub create_all : List Text → Exec Schema (Unit {0})

-- The operation that undoes one that creates something.
abbrev pub inverse : Op → Op
inverse (create_table t) = drop_table t.name
inverse (create_index i) = drop_index i.name i.table
inverse (add_column t c) = drop_column t c.name
inverse op = op

abbrev pub is_creation : Op → Bool
is_creation (create_table t) = true
is_creation (create_index i) = true
is_creation (add_column t c) = true
is_creation op = false

-- What is documented of the database: what an operation has created, its inverse takes away; a table
-- that is there is not created again; and `create_all` leaves all its tables there.
pub record IsPostgres (pg : Postgres) : Type 0 where
  pub undone :
      (op : Op) (s s' : pg.Schema)
      → is_creation op ≡ true
      → pg.execute op s ≡ (ok tt, s')
      → pg.execute (inverse op) s' ≡ (ok tt, s)
  pub not_twice :
      (t : Table) (s : pg.Schema)
      → pg.has_table t.name s ≡ true
      → (e : Failure) × (pg.execute (create_table t) s ≡ (err e, s))
  pub all_created :
      (names : List Text) (name : Text) (s : pg.Schema)
      → (pg.create_all names s).0 ≡ ok tt
      → any (λ n. text_eq n name) names ≡ true
      → pg.has_table name (pg.create_all names s).1 ≡ true

module _ (pg : Postgres) where
  unfoldable pub execute_all : List Op → Exec pg.Schema (Unit {0})
  execute_all [] = pure tt
  execute_all (op ∷ ops) = do pg.execute op; execute_all ops

  -- `with context.begin_transaction()`: a schema that was changed in part is rolled back.
  unfoldable pub in_transaction : Exec pg.Schema (Unit {0}) → Exec pg.Schema (Unit {0})
  in_transaction m s = elim ((m s).0) [ ok x ↦ m s | err e ↦ (err e, s) ]

  -- `context.run_migrations()` in that transaction, on the operations of the revisions to be run.
  unfoldable pub run_migrations : List Op → Exec pg.Schema (Unit {0})
  unfolding execute_all in_transaction
  run_migrations ops = in_transaction (execute_all ops)
