-- ===== src/Orca/Gate.antt =====
-- backend/orca/verification.py: the boot gate, which runs the verifier over every machine file.
pub mod Boot
use orca_validator.Prelude.{
  ℕ, ◌≡◌, Bool, true, false, List, [], ◌∷◌, ◌++◌, Option, none, some, Text, lit, Dict, put, strip,
  join, is_empty, if◌then◌else◌, Failure, raised, Result, ok, err, map,
}

-- How a call of the verifier's command ends: it is not there, it raises something else (a timeout),
-- or it exits, with or without 0, with what it printed to stdout and stderr.
pub data CliRun : Type 0 where
  not_found : Text → CliRun
  broken : Failure → CliRun
  exited : Bool → Text → CliRun

-- The verifier and the hash of a file's bytes, as the file system has them.
pub record Machines : Type 0 where
  pub run_verifier : Text → CliRun
  pub sha256_prefix : Text → Text

-- What `verify_machine_file` makes of a run: whether it passed, and the diagnostics.
abbrev pub outcome : CliRun → Result (Bool × Text)
outcome (not_found e) = err (
    raised (
      lit "ORCA verifier CLI not available ("
      ++ (e ++ lit "); cannot enforce the verification gate.")))
outcome (broken e) = err e
outcome (exited zero out) = ok (zero, strip out)

unfoldable pub verify_machine_file : Machines → Text → Result (Bool × Text)
verify_machine_file ms path = outcome (ms.run_verifier path)

-- `verified` and `failures` of the loop.
pub record Sweep : Type 0 where
  pub verified : Dict Text
  pub failures : List Text

abbrev pub note : Machines → Text → Bool × Text → Sweep → Sweep
note ms f r s =
    if r.0
    then record s { verified = put f (ms.sha256_prefix f) s.verified }
    else record s { failures = s.failures ++ (f ++ (lit ":\n" ++ r.1)) ∷ [] }

-- The loop over the files; a raise leaves it.
abbrev pub next_sweep : Result (Bool × Text) → (Bool × Text → Result Sweep) → Result Sweep
next_sweep (err e) rest = err e
next_sweep (ok r) rest = rest r

unfoldable pub sweep : Machines → List Text → Sweep → Result Sweep
sweep ms [] s = ok s
sweep ms (f ∷ files) s = next_sweep (verify_machine_file ms f) (λ r. sweep ms files (note ms f r s))

-- What follows the loop.
unfoldable pub conclude : Sweep → Result (Dict Text)
conclude s =
    if is_empty s.failures
    then ok s.verified
    else err (
        raised (
          lit "ORCA machine verification failed — refusing to boot:\n\n"
          ++ join (lit "\n\n") s.failures))

abbrev pub conclude_sweep : Result Sweep → Result (Dict Text)
conclude_sweep (ok s) = conclude s
conclude_sweep (err e) = err e

-- `files` are the names of the *.orca.md files of the directory, sorted.
unfoldable pub verify_machines_dir : Machines → List Text → Result (Dict Text)
unfolding sweep conclude verify_machine_file
verify_machines_dir ms [] = err (raised (lit "No *.orca.md machines found"))
verify_machines_dir ms (f ∷ files) =
    conclude_sweep (sweep ms (f ∷ files) (record { verified = []; failures = [] }))

abbrev pub boot_result : Result (Dict Text) → Option (Dict Text)
boot_result (err e) = none
boot_result (ok verified) = some verified

-- The start of the application (backend/app/main.py, lifespan): what VERIFIED_MACHINES holds after
-- `clear` and `update`, or `none` when an exception keeps the application from coming up. `created`
-- is how `create_all` ends, which follows the gate and is the database's.
abbrev pub after_create_all : Result (Unit {0}) → Dict Text → Option (Dict Text)
after_create_all (ok done) verified = some verified
after_create_all (err e) verified = none

unfoldable pub lifespan : Machines → List Text → Result (Unit {0}) → Option (Dict Text)
unfolding verify_machines_dir
lifespan ms files created = elim (boot_result (verify_machines_dir ms files)) [
  | none ↦ none
  | some verified ↦ after_create_all created verified
]
