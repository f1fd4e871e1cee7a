-- ===== src/Orca/Gate/Boot.antt =====
-- When the application comes up, and what the gate then holds (backend/app/main.py, lifespan).
use orca_validator.Prelude.{
  ◌≡◌, refl, sym, ◌∙◌, Bool, true, false, not, ◌&&◌, List, [], ◌∷◌, ◌++◌, Option, none, some, arith,
  Text, lit, Dict, get, put, get-put, all, any, is_empty, Result, ok, err, if◌then◌else◌, strip,
  text_eq, text_eq_iff,
}
use orca_validator.Orca.Gate.{
  CliRun, not_found, broken, exited, Machines, verify_machine_file, sweep, conclude, conclude_sweep,
  verify_machines_dir, lifespan, boot_result,
}

-- The verifier ran, and exited with 0.
abbrev pub is_pass : CliRun → Bool
is_pass (not_found e) = false
is_pass (broken e) = false
is_pass (exited zero out) = zero

abbrev pub passes : Machines → Text → Bool
passes ms f = is_pass (ms.run_verifier f)

-- The hashes of some files, put into a dictionary in turn.
abbrev pub hashes : Machines → List Text → Dict Text → Dict Text
hashes ms [] d = d
hashes ms (f ∷ files) d = hashes ms files (put f (ms.sha256_prefix f) d)

-- The outcome of the loop and of what follows it.
abbrev swept : Machines → List Text → Dict Text → List Text → Option (Dict Text)
swept ms files d fs =
    boot_result (conclude_sweep (sweep ms files (record { verified = d; failures = fs })))

is_empty-concat : (fs : List Text) (t : Text) → is_empty (fs ++ t ∷ []) ≡ false
is_empty-concat [] t = refl
is_empty-concat (f ∷ fs) t = refl

swept_none : (b : Bool) (d : Dict Text) → none ≡ (if b && false then some d else none)
swept_none true d = refl
swept_none false d = refl

-- What the loop and its end come to, for every state of the two collections.
abbrev Sweeps : Machines → List Text → Type 0
Sweeps ms files =
    (d : Dict Text) (fs : List Text)
    → swept ms files d fs
      ≡ (if is_empty fs && all (passes ms) files then some (hashes ms files d) else none)

Sweeps-cons :
    (ms : Machines) (f : Text) (files : List Text) (r : CliRun)
    → ms.run_verifier f ≡ r
    → Sweeps ms files
    → Sweeps ms (f ∷ files)
unfolding sweep conclude verify_machine_file
Sweeps-cons ms f files (not_found x) e rest d fs = rw e (swept_none (is_empty fs) _)
Sweeps-cons ms f files (broken x) e rest d fs = rw e (swept_none (is_empty fs) _)
Sweeps-cons ms f files (exited true out) e rest d fs = rw e (rest (put f (ms.sha256_prefix f) d) fs)
Sweeps-cons ms f files (exited false out) e rest d fs = rw e (
    rest d (fs ++ (f ++ (lit ":\n" ++ strip out)) ∷ [])
    ∙ rw is_empty-concat (swept_none (is_empty fs) _))

sweeps : (ms : Machines) (files : List Text) → Sweeps ms files
unfolding sweep conclude
sweeps ms [] d [] = refl
sweeps ms [] d (f ∷ fs) = refl
sweeps ms (f ∷ files) d fs = Sweeps-cons ms f files (ms.run_verifier f) refl (sweeps ms files) d fs

-- The tables were created.
abbrev pub is_created : Result (Unit {0}) → Bool
is_created (ok done) = true
is_created (err e) = false

checked :
    (ms : Machines) (files : List Text)
    → boot_result (verify_machines_dir ms files)
      ≡ (if not (is_empty files) && all (passes ms) files then some (hashes ms files []) else none)
unfolding verify_machines_dir
checked ms [] = refl
checked ms (f ∷ files) = sweeps ms (f ∷ files) [] []

-- The application comes up exactly when there is a machine file, the verifier passes every one, and
-- `create_all`, however it may end, does not raise; VERIFIED_MACHINES then holds the hash of each file, and nothing else.
pub lifespan_lem :
    (ms : Machines) (files : List Text) (created : Result (Unit {0}))
    → lifespan ms files created ≡ (
        if not (is_empty files) && (all (passes ms) files && is_created created)
        then some (hashes ms files [])
        else none)
unfolding lifespan
lifespan_lem ms files (ok done) = rw (checked ms files, lifespan) (ground arith)
lifespan_lem ms files (err e) = rw (checked ms files, lifespan) (ground arith)

-- After the boot every file that was in the directory has its hash.
pub get-hashes :
    (ms : Machines) (files : List Text) (d : Dict Text) (f : Text)
    → get f (hashes ms files d)
      ≡ (if any (λ g. text_eq g f) files then some (ms.sha256_prefix f) else get f d)
get-hashes ms [] d f = refl
get-hashes ms (g ∷ files) d f =
    get-hashes ms files (put g (ms.sha256_prefix g) d) f
    ∙ rw get-put (ground (arith, text_eq_iff g f))

-- What VERIFIED_MACHINES holds once the application is up: for a file of the directory its hash,
-- for every other name nothing.
pub get-lifespan :
    (ms : Machines) (files : List Text) (created : Result (Unit {0})) (verified : Dict Text)
    (f : Text)
    → lifespan ms files created ≡ some verified
    → get f verified ≡ (if any (λ g. text_eq g f) files then some (ms.sha256_prefix f) else none)
unfolding get
get-lifespan ms files created verified f h =
    let came_up = sym (lifespan_lem ms files created) ∙ h in
    ground (arith, came_up, get-hashes ms files [] f)
