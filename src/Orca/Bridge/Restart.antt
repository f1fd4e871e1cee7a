-- ===== src/Orca/Bridge/Restart.antt =====
-- A process that was started again finds its machines in the table of snapshots.
use orca_validator.Prelude.{
  ◌≡◌, refl, ap, ◌∙◌, true, [], some, Text, lit, text_eq_refl, get, update, ok, Result,
}
use orca_validator.Orca.Context.{Context}
use orca_validator.Orca.Machine.{Machine, Event}
use orca_validator.Orca.Runtime.{Runtime}
use orca_validator.Orca.Persistence.{Table, save, load, exists, load-save}
use orca_validator.Orca.Bridge.{
  Bridge, run_key, get_or_create, create, send, loaded, stop_all, shutdown,
}
use orca_validator.Orca.Bridge.Steps.{Registered, send-Registered}

module _ (rt : Runtime) where
  -- The bridge of a process that has just started, on a table.
  abbrev pub restarted : Table rt → Bridge rt
  restarted table = record { machines = []; table = table }

  get_or_create_saved :
      (entity_id : Text) (s : rt.Snapshot) (table : Table rt)
      → load rt (run_key rt (lit "contract") entity_id) table ≡ some s
      → (get_or_create rt (lit "contract") entity_id [] (restarted table)).0
        ≡ ok (loaded rt (some s) [])
  unfolding get_or_create create get exists
  get_or_create_saved entity_id s table h = rw (h, create)

  -- Where a registered machine was moved by a call of `send`, the machine that a process started
  -- anew on the same table gets for the run is in the state that the machine moved to.
  pub send_restarted :
      (entity_id : Text) (e : Event) (p : Context) (m m' : Machine) (b : Bridge rt)
      → Registered rt (run_key rt (lit "contract") entity_id) m b
      → rt.send m e p ≡ ok (m', true)
      → (m'' : Machine) × ((get_or_create rt
            (lit "contract")
            entity_id
            []
            (restarted (send rt (lit "contract") entity_id e p b).1.table)).0
          ≡ ok m'')
        × (m''.state ≡ m'.state)
  send_restarted entity_id e p m m' b registered sends =
      let key = run_key rt (lit "contract") entity_id in
      let saved : load rt key (save rt key (rt.snapshot m') b.table) ≡ some (rt.snapshot m') =
        load-save rt key key (rt.snapshot m') b.table ∙ rw text_eq_refl refl in
      (
        loaded rt (some (rt.snapshot m')) [],
        ap (λ r. (get_or_create rt (lit "contract") entity_id [] (restarted r.1.table)).0)
              (send-Registered rt entity_id e p m m' b registered sends)
            ∙ get_or_create_saved entity_id (rt.snapshot m') (save rt key (rt.snapshot m') b.table)
                saved,
        unfold update in rt.restore_state m' [],
      )

  -- After a shutdown that returns, the bridge is that of a process that has just started.
  shutdown-restarted :
      (stop : Machine → Result (Unit {0})) (b : Bridge rt)
      → stop_all rt stop b.machines ≡ ok tt
      → shutdown rt stop b ≡ (ok tt, restarted b.table)
  unfolding shutdown
  shutdown-restarted stop b h = rw (h, shutdown) refl
