-- ===== src/Tests/Interpreter.antt =====
-- A runtime that reads the table of machines/contract_validation.orca.md: the behaviour that
-- Orca/Runtime asks of the package can be had.
use mathlib.Core.Path.{subst}
use orca_validator.Prelude.{
  ℕ, zero, suc, ◌≡◌, refl, sym, ap, ◌∙◌, Bool, true, false, Option, none, some, inl, inr, lit, get,
  Result, ok, err,
}
use orca_validator.Orca.Context.{Context, Value, num}
use orca_validator.Orca.Machine.{
  State, received, validating, valid, invalid, error, state_name, Event, extracted, evaluate,
  extraction_failed, timeout, Guard, always, all_required_present, missing_required, Action,
  no_action, extracted_action, valid_action, invalid_action, error_action, Row, contract_validation,
  Holds, nothing_missing, something_missing, run_action, Machine, In, Fires,
}
use orca_validator.Orca.Runtime.{Runtime}

abbrev row : State → Event → Guard → State → Action → Row
row s e g t a = record { source = s; event = e; guard = g; target = t; action = a }

-- The row of EVALUATE in `validating`, from the count of the missing fields.
abbrev judged_row : Option Value → Option Row
judged_row (some (num zero)) =
    some (row validating evaluate all_required_present valid valid_action)
judged_row (some (num (suc n))) =
    some (row validating evaluate missing_required invalid invalid_action)
judged_row _ = none

abbrev firing_row : State → Event → Context → Option Row
firing_row received extracted c = some (row received extracted always validating extracted_action)
firing_row received evaluate c = some (row received evaluate always received no_action)
firing_row received extraction_failed c =
    some (row received extraction_failed always error error_action)
firing_row received timeout c = some (row received timeout always error error_action)
firing_row validating extracted c = some (row validating extracted always validating no_action)
firing_row validating evaluate c = judged_row (get (lit "missing_count") c)
firing_row validating extraction_failed c =
    some (row validating extraction_failed always error error_action)
firing_row validating timeout c = some (row validating timeout always error error_action)
firing_row _ e c = none

abbrev moved : State → Result Context → Result (Machine × Bool)
moved target (ok c) = ok (record { state = target; context = c }, true)
moved target (err e) = err e

abbrev taken : Machine → Context → Option Row → Result (Machine × Bool)
taken m p none = ok (m, false)
taken m p (some r) = moved r.target (run_action r.action m.context (some p))

unfoldable pub interpret : Machine → Event → Context → Result (Machine × Bool)
interpret m e p = taken m p (firing_row m.state e m.context)

zero_missing :
    (c : Context) → Holds all_required_present c → get (lit "missing_count") c ≡ some (num 0)
zero_missing c (nothing_missing h) = h

some_missing :
    (c : Context)
    → Holds missing_required c
    → (n : ℕ) × (get (lit "missing_count") c ≡ some (num (suc n)))
some_missing c (something_missing n h) = (n, h)

-- The row that fires is the one listed for the machine's state and the event.
listed_row :
    (m : Machine) (e : Event) (r q : Row)
    → r ≡ q
    → r.source ≡ m.state
    → r.event ≡ e
    → firing_row q.source q.event m.context ≡ some q
    → firing_row m.state e m.context ≡ some r
listed_row m e r q same from on h =
    ap (λ s. firing_row s e m.context) (sym from)
    ∙ ap (λ v. firing_row r.source v m.context) (sym on)
    ∙ ap (λ x. firing_row x.source x.event m.context) same
    ∙ h
    ∙ ap some (sym same)

nothing_missing_row :
    (c : Context)
    → Holds all_required_present c
    → firing_row validating evaluate c
      ≡ some (row validating evaluate all_required_present valid valid_action)
nothing_missing_row c h = rw (zero_missing c h) refl

something_missing_row :
    (c : Context)
    → Holds missing_required c
    → firing_row validating evaluate c
      ≡ some (row validating evaluate missing_required invalid invalid_action)
something_missing_row c h = let (n, e) = some_missing c h in rw e refl

firing_row-Fires :
    (m : Machine) (e : Event) (r : Row) (l : In r contract_validation)
    → r.source ≡ m.state
    → r.event ≡ e
    → Holds r.guard m.context
    → firing_row m.state e m.context ≡ some r
firing_row-Fires m e r (inl q) f o g = listed_row m e r _ q f o refl
firing_row-Fires m e r (inr (inl q)) f o g = listed_row m e r _ q f o refl
firing_row-Fires m e r (inr (inr (inl q))) f o g = listed_row m e r _ q f o refl
firing_row-Fires m e r (inr (inr (inr (inl q)))) f o g = listed_row m e r _ q f o refl
firing_row-Fires m e r (inr (inr (inr (inr (inl q))))) f o g = listed_row m e r _ q f o refl
firing_row-Fires m e r (inr (inr (inr (inr (inr (inl q)))))) f o g =
    listed_row m e r _ q f o
      (nothing_missing_row m.context (subst (λ x. Holds x.guard m.context) q g))
firing_row-Fires m e r (inr (inr (inr (inr (inr (inr (inl q))))))) f o g =
    listed_row m e r _ q f o
      (something_missing_row m.context (subst (λ x. Holds x.guard m.context) q g))
firing_row-Fires m e r (inr (inr (inr (inr (inr (inr (inr (inl q)))))))) f o g =
    listed_row m e r _ q f o refl
firing_row-Fires m e r (inr (inr (inr (inr (inr (inr (inr (inr (inl q))))))))) f o g =
    listed_row m e r _ q f o refl
firing_row-Fires m e r (inr (inr (inr (inr (inr (inr (inr (inr (inr x))))))))) f o g = elim x [ ]

pub interpret-Fires :
    (m : Machine) (e : Event) (p : Context) (r : Row) (c : Context)
    → Fires m e r
    → run_action r.action m.context (some p) ≡ ok c
    → interpret m e p ≡ ok (record { state = r.target; context = c }, true)
unfolding interpret
interpret-Fires m e p r c fires acts =
    ap (taken m p) (firing_row-Fires m e r fires.listed fires.from fires.on fires.guarded)
    ∙ ap (moved r.target) acts

-- Snapshots are the machines themselves.
abbrev pub interpreter : Runtime
interpreter = record {
  Snapshot = Machine;
  snapshot = λ m. m;
  machine_name = λ m. some (lit "ContractValidation");
  leaf_state = λ m. state_name m.state;
  start = λ c. record { state = received; context = c };
  restore = λ s c. s;
  send = interpret;
  start_state = λ c. refl;
  restore_state = λ m c. refl;
  send_fires = interpret-Fires;
}
