-- ===== src/Tests/Application.antt =====
-- The theorems of the application around the pipeline, on a schema that is the list of what was
-- created, the last first.
use orca_validator.Prelude.{
  ◌≡◌, refl, sym, ap, Bool-cases, inl, inr, Bool, true, false, List, [], ◌∷◌, ◌++◌, Text, lit,
  text_eq, any, take, drop, Failure, raised, ok, err, Exec, map, arith, if◌then◌else◌,
}
use orca_validator.App.Migrations.{
  Op, create_table, drop_table, create_index, drop_index, add_column, drop_column, Table, Postgres,
  IsPostgres, run_migrations, is_creation, inverse, in_transaction,
}
use orca_validator.App.Migrations.Revisions.{history}
use orca_validator.App.Migrations.RoundTrip.{upgrades, downgrades, downgrades-upgrades}
use orca_validator.App.Migrations.Boot.{
  metadata_tables, create_tables, run_migrations-create_tables,
}

-- A table by its name, or anything else.
data Created : Type 0 where
  named : Text → Created
  other : Created

abbrev is_named : Text → Created → Bool
is_named name (named n) = text_eq n name
is_named name other = false

abbrev has_table : Text → List Created → Bool
has_table name s = any (is_named name) s

abbrev undo_last : Exec (List Created) (Unit {0})
undo_last [] = (err (raised (lit "nothing to drop")), [])
undo_last (c ∷ s) = (ok tt, s)

abbrev execute : Op → Exec (List Created) (Unit {0})
execute (create_table t) s =
    if has_table t.name s
    then (err (raised (lit "already exists")), s)
    else (ok tt, named t.name ∷ s)
execute (create_index i) s = (ok tt, other ∷ s)
execute (add_column t c) s = (ok tt, other ∷ s)
execute (drop_table n) s = undo_last s
execute (drop_index n t) s = undo_last s
execute (drop_column t n) s = undo_last s

abbrev log : Postgres
log = record {
  Schema = List Created;
  has_table = has_table;
  execute = execute;
  create_all = λ names s. (ok tt, map named names ++ s);
}

-- Undoing the last thing that was created leaves the others.
undo_last_lem : (c : Created) (s s' : List Created) → c ∷ s ≡ s' → undo_last s' ≡ (ok tt, s)
undo_last_lem c s s' e = ap undo_last (sym e)

log-undone :
    (op : Op) (s s' : List Created)
    → is_creation op ≡ true
    → execute op s ≡ (ok tt, s')
    → execute (inverse op) s' ≡ (ok tt, s)
log-undone (create_table t) s s' h e = elim (Bool-cases (has_table t.name s)) [
  | inl there ↦ absurd (let e' = rw there at e in cc)
  | inr absent ↦ undo_last_lem (named t.name) s s' (ap (λ x. x.1) (rw absent at e))
]
log-undone (create_index i) s s' h e = undo_last_lem other s s' (ap (λ x. x.1) e)
log-undone (add_column t c) s s' h e = undo_last_lem other s s' (ap (λ x. x.1) e)
log-undone (drop_table n) s s' h e = cc
log-undone (drop_index n t) s s' h e = cc
log-undone (drop_column t n) s s' h e = cc

log-not_twice :
    (t : Table) (s : List Created)
    → has_table t.name s ≡ true
    → (e : Failure) × (execute (create_table t) s ≡ (err e, s))
log-not_twice t s h = (raised (lit "already exists"), rw h refl)

log-all_created :
    (names : List Text) (name : Text) (s : List Created)
    → any (λ n. text_eq n name) names ≡ true
    → has_table name (map named names ++ s) ≡ true
log-all_created [] name s h = ground (arith, h)
log-all_created (n ∷ names) name s h = ground (arith, h, log-all_created names name s)

log-IsPostgres : IsPostgres log
log-IsPostgres = record {
  undone = log-undone;
  not_twice = log-not_twice;
  all_created = λ names name s _ h. log-all_created names name s h;
}

-- The three revisions after the first one, which makes four tables.
abbrev first_schema : List Created
first_schema = (run_migrations log (upgrades (take 1 history)) []).1

abbrev last_schema : List Created
last_schema = other ∷ other ∷ other ∷ other ∷ other ∷ first_schema

last_schema-upgraded :
    run_migrations log (upgrades (take 3 (drop 1 history))) first_schema ≡ (ok tt, last_schema)
unfolding run_migrations
last_schema-upgraded = refl

downgrades-upgrades_example :
    run_migrations log (downgrades (take 3 (drop 1 history))) last_schema ≡ (ok tt, first_schema)
downgrades-upgrades_example =
    downgrades-upgrades log log-IsPostgres 1 3 first_schema last_schema last_schema-upgraded

created : create_tables log [] ≡ (ok tt, map named metadata_tables)
unfolding create_tables in_transaction
created = refl

run_migrations-create_tables_example :
    (e : Failure) × (run_migrations log (upgrades history) (map named metadata_tables)
      ≡ (err e, map named metadata_tables))
run_migrations-create_tables_example =
    run_migrations-create_tables log log-IsPostgres [] (map named metadata_tables) created
