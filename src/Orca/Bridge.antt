-- ===== src/Orca/Bridge.antt =====
-- backend/orca/bridge.py and registry.py: one machine for each run, restored from its snapshot.
pub mod Steps
pub mod Restart
use orca_validator.Prelude.{
  ℕ, ◌≡◌, refl, Bool, true, false, not, ◌&&◌, ◌||◌, List, [], ◌∷◌, ◌++◌, Option, none, some, Text,
  lit, text_eq, is_empty, any, if◌then◌else◌, Dict, get, put, update, Result, ok, err, raised, Exec,
  pure, raise, lift, continue, ◌>>=◌, ◌>>◌,
}
use orca_validator.Orca.Context.{Context, Value}
use orca_validator.Orca.Machine.{Machine, Event}
use orca_validator.Orca.Runtime.{Runtime}
use orca_validator.Orca.Persistence.{SnapshotRow, Table, save, load, exists}

-- The keys of `MACHINE_DEFS` and of `REGISTER_FNS`.
abbrev pub machine_defs : List Text
machine_defs = lit "contract" ∷ []

abbrev pub register_fns : List Text
register_fns = lit "contract" ∷ []

-- `doc_type in supported_doc_types()`
unfoldable pub is_supported : Text → Bool
is_supported doc_type =
    any (λ d. text_eq d doc_type) machine_defs && any (λ d. text_eq d doc_type) register_fns

module _ (rt : Runtime) where
  -- `_machines`, and the table behind `_persistence`.
  pub record Bridge : Type 0 where
    pub machines : Dict Machine
    pub table : Table rt

  -- `_run_id`
  unfoldable pub run_key : Text → Text → Text
  run_key doc_type entity_id = doc_type ++ (lit ":" ++ entity_id)

  -- `if context: machine.context.update(context)`
  abbrev pub with_context : Machine → Context → Machine
  with_context m c = record m { context = update m.context c }

  abbrev pub register : Text → Machine → Exec Bridge Machine
  register run_id m b = (ok m, record b { machines = put run_id m b.machines })

  abbrev pub store : Text → Machine → Exec Bridge (Unit {0})
  store run_id m b = (ok tt, record b { table = save rt run_id (rt.snapshot m) b.table })

  -- The machine that `load_or_start` gives, the caller's context put on top.
  abbrev pub loaded : Option rt.Snapshot → Context → Machine
  loaded none context = with_context (rt.start context) context
  loaded (some s) context = with_context (rt.restore s context) context

  -- A machine that is not in the registry: its definition is looked up, it is restored or started,
  -- and a fresh one is stored at once.
  unfoldable pub create : Text → Text → Context → Exec Bridge Machine
  create doc_type run_id context b =
      if not (any (λ d. text_eq d doc_type) machine_defs)
      then raise (raised (lit "'" ++ (doc_type ++ lit "'"))) b
      else elim (load rt run_id b.table) [
        | some s ↦ register run_id (loaded (some s) context) b
        | none ↦ (do store run_id (loaded none context); register run_id (loaded none context)) b
      ]

  unfoldable pub get_or_create : Text → Text → Context → Exec Bridge Machine
  unfolding create run_key
  get_or_create doc_type entity_id context b =
      let run_id = run_key doc_type entity_id in
      elim (get run_id b.machines) [
        | some m ↦ register run_id (with_context m context) b
        | none ↦
            if is_empty context && not (exists rt run_id b.table)
            then raise (raised (lit "Context is required to start a new machine for " ++ run_id)) b
            else create doc_type run_id context b
      ]

  -- `machine.send`, which stores a snapshot after each transition that is taken, as the module's
  -- comment says; the machine in the registry is the one that moved.
  unfoldable pub machine_send : Text → Machine → Event → Context → Exec Bridge (Bool × Machine)
  machine_send run_id m event payload b = elim (rt.send m event payload) [
    | err e ↦ (err e, b)
    | ok (m', taken) ↦
        (do if taken then store run_id m' else pure tt; register run_id m'; pure (taken, m')) b
  ]

  -- `send` without a context of its own, as the pipeline calls it.
  unfoldable pub send : Text → Text → Event → Context → Exec Bridge (Bool × Machine)
  unfolding get_or_create machine_send
  send doc_type entity_id event payload = do
    m ← get_or_create doc_type entity_id []
    machine_send (run_key doc_type entity_id) m event payload

  -- The loop of `shutdown` over the machines' values; what `machine.stop` does is the package's.
  unfoldable pub stop_all : (Machine → Result (Unit {0})) → Dict Machine → Result (Unit {0})
  stop_all stop [] = ok tt
  stop_all stop ((run_id, m) ∷ machines) = elim (stop m) [
    | err e ↦ err e
    | ok u ↦ stop_all stop machines
  ]

  -- `shutdown`: where a machine cannot be stopped, the registry stays as it is.
  unfoldable pub shutdown : (Machine → Result (Unit {0})) → Exec Bridge (Unit {0})
  unfolding stop_all
  shutdown stop b = elim (stop_all stop b.machines) [
    | err e ↦ (err e, b)
    | ok u ↦ (ok tt, record b { machines = [] })
  ]
