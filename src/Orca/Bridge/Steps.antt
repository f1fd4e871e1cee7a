-- ===== src/Orca/Bridge/Steps.antt =====
-- What the calls of the bridge do to a machine that is fresh, registered, or restored.
use orca_validator.Prelude.{
  ◌≡◌, true, ◌∷◌, none, some, Text, lit, text_eq_refl, Dict, get, put, get-put, update, ok,
}
use orca_validator.Orca.Context.{Context, Value}
use orca_validator.Orca.Machine.{Machine, Event}
use orca_validator.Orca.Runtime.{Runtime}
use orca_validator.Orca.Persistence.{save, load}
use orca_validator.Orca.Bridge.{Bridge, run_key, get_or_create, create, machine_send, send, loaded}

module _ (rt : Runtime) where
  -- The registry holds this machine under this key.
  abbrev pub Registered : Text → Machine → Bridge rt → Type 0
  Registered key m b = get key b.machines ≡ some m

  get-put_self : (key : Text) (m : Machine) (d : Dict Machine) → get key (put key m d) ≡ some m
  get-put_self key m d = rw (get-put, text_eq_refl)

  -- Neither the registry nor the table knows a fresh key.
  pub record IsFresh (key : Text) (b : Bridge rt) : Type 0 where
    pub unregistered : get key b.machines ≡ none
    pub unsaved : load rt key b.table ≡ none

  -- The bridge after a machine was stored under a key and registered.
  abbrev pub put_machine : Text → Machine → Bridge rt → Bridge rt
  put_machine key m b = record {
    machines = put key m b.machines;
    table = save rt key (rt.snapshot m) b.table;
  }

  abbrev contract_key : Text → Text
  contract_key entity_id = run_key rt (lit "contract") entity_id

  pub get_or_create_fresh :
      (entity_id k : Text) (v : Value) (context : Context) (b : Bridge rt)
      → IsFresh (contract_key entity_id) b
      → get_or_create rt (lit "contract") entity_id ((k, v) ∷ context) b ≡ (
        ok (loaded rt none ((k, v) ∷ context)),
        put_machine (contract_key entity_id) (loaded rt none ((k, v) ∷ context)) b,
      )
  unfolding get_or_create create
  get_or_create_fresh entity_id k v context b fresh =
      rw (fresh.unregistered, get_or_create) (rw (fresh.unsaved, create))

  pub put_machine-Registered :
      (key : Text) (m : Machine) (b : Bridge rt) → Registered key m (put_machine key m b)
  put_machine-Registered key m b = get-put_self key m b.machines

  -- A machine in the registry that can move at an event moves, and its snapshot is stored.
  pub send-Registered :
      (entity_id : Text) (e : Event) (p : Context) (m m' : Machine) (b : Bridge rt)
      → Registered (contract_key entity_id) m b
      → rt.send m e p ≡ ok (m', true)
      → send rt (lit "contract") entity_id e p b ≡ (
        ok (true, m'),
        put_machine
            (contract_key entity_id)
            m'
            (record b { machines = put (contract_key entity_id) m b.machines }),
      )
  unfolding send get_or_create machine_send update
  send-Registered entity_id e p m m' b registered sends =
      rw (registered, get_or_create) (rw (sends, machine_send))
