-- ===== src/Orca/Runtime.antt =====
-- What backend/orca/bridge.py uses of the package orca_runtime_python, and what it relies on.
use orca_validator.Prelude.{◌≡◌, Bool, true, Option, some, Text, Result, ok}
use orca_validator.Orca.Context.{Context}
use orca_validator.Orca.Machine.{received, Machine, Event, Row, Fires, run_action}

pub record Runtime : Type 1 where
  -- a snapshot as it is stored
  pub Snapshot : Type 0
  -- `machine.snapshot()`, and its entries "machine" and "state" (the leaf, if it can be read)
  pub snapshot : Machine → Snapshot
  pub machine_name : Snapshot → Option Text
  pub leaf_state : Snapshot → Text
  -- `load_or_start()` with no stored snapshot, and with one
  pub start : Context → Machine
  pub restore : Snapshot → Context → Machine
  -- `machine.send(event, payload)`: the machine after it, and the result's `taken`
  pub send : Machine → Event → Context → Result (Machine × Bool)
  -- A machine starts in the state that its definition marks as initial.
  pub start_state : (c : Context) → (start c).state ≡ received
  -- A restored machine is in the state of its snapshot.
  pub restore_state : (m : Machine) (c : Context) → (restore (snapshot m) c).state ≡ m.state
  -- A row that fires is taken: its action computes the new context, its target is the new state.
  pub send_fires :
      (m : Machine) (e : Event) (p : Context) (r : Row) (c : Context)
      → Fires m e r
      → run_action r.action m.context (some p) ≡ ok c
      → send m e p ≡ ok (record { state = r.target; context = c }, true)
