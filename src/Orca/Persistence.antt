-- ===== src/Orca/Persistence.antt =====
-- backend/orca/persistence.py: the snapshots of machines, one row for each run id.
use orca_validator.Prelude.{
  ◌≡◌, Bool, true, false, Option, none, some, arith, Text, lit, text_eq, is_empty, if◌then◌else◌,
  Dict, get, put, get-put,
}
use orca_validator.Orca.Runtime.{Runtime}

-- A row of the table machine_snapshots; its key is the run id.
pub record SnapshotRow (rt : Runtime) : Type 0 where
  pub machine_name : Text
  pub current_state : Text
  pub snapshot_json : rt.Snapshot

module _ (rt : Runtime) where
  abbrev pub Table : Type 0
  Table = Dict (SnapshotRow rt)

  -- `snapshot.get("machine") or fallback`
  abbrev pub name_or : Option Text → Text → Text
  name_or none fallback = fallback
  name_or (some n) fallback = if is_empty n then fallback else n

  -- The row as `save` leaves it: an existing row keeps its name if the snapshot has none.
  abbrev pub saved_row : Text → rt.Snapshot → Table → SnapshotRow rt
  saved_row run_id s table = record {
    machine_name =
        name_or (rt.machine_name s)
          (elim (get run_id table) [ none ↦ lit "unknown" | some row ↦ row.machine_name ]);
    current_state = rt.leaf_state s;
    snapshot_json = s;
  }

  unfoldable pub save : Text → rt.Snapshot → Table → Table
  save run_id s table = put run_id (saved_row run_id s table) table

  -- `load`
  unfoldable pub load : Text → Table → Option rt.Snapshot
  load run_id table = elim (get run_id table) [ none ↦ none | some row ↦ some row.snapshot_json ]

  -- `exists`
  unfoldable pub exists : Text → Table → Bool
  unfolding load
  exists run_id table = elim (load run_id table) [ none ↦ false | some s ↦ true ]

  -- After a snapshot was saved, it is what is loaded under its run id, and what is loaded under any
  -- other run id has not changed.
  pub load-save :
      (run_id j : Text) (s : rt.Snapshot) (table : Table)
      → load j (save run_id s table) ≡ (if text_eq run_id j then some s else load j table)
  unfolding load save
  load-save run_id j s table = ground (arith, get-put run_id j (saved_row run_id s table) table)
