-- ===== src/System/Fits.antt =====
-- How the status of a run, the tasks that it has and the results that are stored for it fit together.
use orca_validator.Prelude.{
  ℕ, suc, ◌≤◌, ◌≡◌, refl, false, List, [], ◌∷◌, ◌++◌, Option, none, some, arith, Text, lit, ◌||◌,
  text_eq, inl, inr, Bool-cases,
}
use orca_validator.Pipeline.Database.{Status, uploaded, queued, running, done, failed}
use orca_validator.Pipeline.Validate.{is_taken, final_status}
use orca_validator.System.Life.{Life, Move, kept, scheduled, unscheduled, claimed, ended}

-- Of one run: its status, if it has a row, how many tasks wait and work for it, and the verdicts that
-- are stored for it. A queued run has at most one task, and that waits; a running one has at most
-- one, and that works; one that is done or failed has none, and one result, of a verdict that means
-- this status.
abbrev pub Fits : Option Status → ℕ → ℕ → List Text → Type 0
Fits none w a vs = (w ≡ 0) × (a ≡ 0) × (vs ≡ [])
Fits (some uploaded) w a vs = ⊥
Fits (some queued) w a vs = (w ≤ 1) × (a ≡ 0) × (vs ≡ [])
Fits (some running) w a vs = (w ≡ 0) × (a ≤ 1) × (vs ≡ [])
Fits (some done) w a vs = (w ≡ 0) × (a ≡ 0) × ((v : Text) × (vs ≡ v ∷ []) × (final_status v ≡ done))
Fits (some failed) w a vs =
    (w ≡ 0) × (a ≡ 0) × ((v : Text) × (vs ≡ v ∷ []) × (final_status v ≡ failed))

-- A task goes away.
pub Fits-fewer :
    (o : Option Status) (w w' a a' : ℕ) (vs : List Text)
    → w' ≤ w
    → a' ≤ a
    → Fits o w a vs
    → Fits o w' a' vs
Fits-fewer none w w' a a' vs h k (p, q, r) = (omega arith, omega arith, r)
Fits-fewer (some uploaded) w w' a a' vs h k f = f
Fits-fewer (some queued) w w' a a' vs h k (p, q, r) = (omega arith, omega arith, r)
Fits-fewer (some running) w w' a a' vs h k (p, q, r) = (omega arith, omega arith, r)
Fits-fewer (some done) w w' a a' vs h k (p, q, r) = (omega arith, omega arith, r)
Fits-fewer (some failed) w w' a a' vs h k (p, q, r) = (omega arith, omega arith, r)

-- The row and the results of the run are as before, and no task is new.
pub Fits-kept :
    (o o' : Option Status) (w w' a a' : ℕ) (vs vs' : List Text)
    → o' ≡ o
    → w' ≤ w
    → a' ≤ a
    → vs' ≡ vs
    → Fits o w a vs
    → Fits o' w' a' vs'
Fits-kept o o' w w' a a' vs vs' e h k e' f = rw (e, e') (Fits-fewer o w w' a a' vs h k f)

-- A run is stored and scheduled.
pub Fits-queued : (w a : ℕ) (vs : List Text) → Fits none w a vs → Fits (some queued) (suc w) a vs
Fits-queued w a vs (p, q, r) = (omega arith, q, r)

-- A run is stored, and not scheduled.
pub Fits-unscheduled : (w a : ℕ) (vs : List Text) → Fits none w a vs → Fits (some queued) w a vs
Fits-unscheduled w a vs (p, q, r) = (omega arith, q, r)

-- A run that waits is claimed.
pub Fits-claimed :
    (st : Status) (w w' a : ℕ) (vs : List Text)
    → is_taken st ≡ false
    → suc w' ≡ w
    → Fits (some st) w a vs
    → Fits (some running) w' (suc a) vs
Fits-claimed uploaded w w' a vs h k f = absurd f
Fits-claimed queued w w' a vs h k (p, q, r) = (omega arith, omega arith, r)
Fits-claimed running w w' a vs h k f = cc
Fits-claimed done w w' a vs h k f = cc
Fits-claimed failed w w' a vs h k f = cc

-- A run that is worked on gets its result.
pub Fits-finished :
    (st : Status) (w a a' : ℕ) (vs : List Text) (v : Text)
    → suc a' ≡ a
    → Fits (some st) w a vs
    → Fits (some (final_status v)) w a' (vs ++ v ∷ [])
Fits-finished uploaded w a a' vs v h f = absurd f
Fits-finished queued w a a' vs v h (p, q, r) = absurd (omega arith)
Fits-finished running w a a' vs v h (p, q, r) =
    elim (Bool-cases (text_eq v (lit "pass") || text_eq v (lit "fail"))) [
      | inl e ↦ rw (e, r) (p, omega arith, (v, refl, rw e refl))
      | inr e ↦ rw (e, r) (p, omega arith, (v, refl, rw e refl))
    ]
Fits-finished done w a a' vs v h (p, q, r) = absurd (omega arith)
Fits-finished failed w a a' vs v h (p, q, r) = absurd (omega arith)

abbrev pub IsFit : Life → Type 0
IsFit x = Fits x.status x.waiting x.working x.verdicts

pub IsFit-Move : {x y : Life} → Move x y → IsFit x → IsFit y
IsFit-Move {x} {y} (kept e w a v) f =
    Fits-kept x.status y.status x.waiting y.waiting x.working y.working x.verdicts y.verdicts e w a
      v f
IsFit-Move {x} {y} (scheduled h e w a v) f =
    rw (e, w, a, v) (Fits-queued x.waiting x.working x.verdicts (rw h at f))
IsFit-Move {x} {y} (unscheduled h e w a v) f =
    rw (e, w, a, v) (Fits-unscheduled x.waiting x.working x.verdicts (rw h at f))
IsFit-Move {x} {y} (claimed {st} h k e w a v) f =
    rw (e, a, v)
      (Fits-claimed st x.waiting y.waiting x.working x.verdicts k (omega arith) (rw h at f))
IsFit-Move {x} {y} (ended {st} v h e w a vs) f =
    rw (e, w, vs)
      (Fits-finished st x.waiting x.working y.working x.verdicts v (omega arith) (rw h at f))
