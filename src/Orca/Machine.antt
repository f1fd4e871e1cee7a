-- ===== src/Orca/Machine.antt =====
-- machines/contract_validation.orca.md: the states, events, guards and transitions of the machine
-- ContractValidation, and the actions that register_contract_actions binds to their names.
use orca_validator.Prelude.{
  ℕ, suc, ◌≡◌, ◌⊎◌, List, [], ◌∷◌, Option, some, Text, lit, get, Result, ok,
}
use orca_validator.Orca.Context.{Context, num}
use orca_validator.Orca.Actions.{record_extracted, record_valid, record_invalid, record_error}

pub data State : Type 0 where
  received validating valid invalid error : State

-- `str(machine.state)`
abbrev pub state_name : State → Text
state_name received = lit "received"
state_name validating = lit "validating"
state_name valid = lit "valid"
state_name invalid = lit "invalid"
state_name error = lit "error"

pub data Event : Type 0 where
  extracted evaluate extraction_failed timeout : Event

pub data Guard : Type 0 where
  always all_required_present missing_required : Guard

pub data Action : Type 0 where
  no_action extracted_action valid_action invalid_action error_action : Action

pub record Row : Type 0 where
  pub source : State
  pub event : Event
  pub guard : Guard
  pub target : State
  pub action : Action

abbrev row : State → Event → Guard → State → Action → Row
row s e g t a = record { source = s; event = e; guard = g; target = t; action = a }

-- The table `transitions`.
abbrev pub contract_validation : List Row
contract_validation =
    row received extracted always validating extracted_action
    ∷ row received evaluate always received no_action
    ∷ row received extraction_failed always error error_action
    ∷ row received timeout always error error_action
    ∷ row validating extracted always validating no_action
    ∷ row validating evaluate all_required_present valid valid_action
    ∷ row validating evaluate missing_required invalid invalid_action
    ∷ row validating extraction_failed always error error_action
    ∷ row validating timeout always error error_action
    ∷ []

-- The table `guards`: `ctx.missing_count == 0` and `ctx.missing_count > 0`.
pub data Holds : Guard → Context → Type 0 where
  unguarded : {c : Context} → Holds always c
  nothing_missing :
      {c : Context} → get (lit "missing_count") c ≡ some (num 0) → Holds all_required_present c
  something_missing :
      {c : Context} (n : ℕ)
      → get (lit "missing_count") c ≡ some (num (suc n))
      → Holds missing_required c

-- `register_contract_actions`
unfoldable pub run_action : Action → Context → Option Context → Result Context
unfolding record_extracted record_valid record_invalid record_error
run_action no_action context payload = ok context
run_action extracted_action context payload = record_extracted context payload
run_action valid_action context payload = record_valid context payload
run_action invalid_action context payload = record_invalid context payload
run_action error_action context payload = record_error context payload

-- The part of a running machine that the program reads.
pub record Machine : Type 0 where
  pub state : State
  pub context : Context

abbrev pub In : Row → List Row → Type 0
In r [] = ⊥
In r (q ∷ rows) = (r ≡ q) ⊎ In r rows

-- A row that fires in a machine at an event.
pub record Fires (m : Machine) (e : Event) (r : Row) : Type 0 where
  pub listed : In r contract_validation
  pub from : r.source ≡ m.state
  pub on : r.event ≡ e
  pub guarded : Holds r.guard m.context
