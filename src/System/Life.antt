-- ===== src/System/Life.antt =====
-- The life of one run: what a run is to the service, and the moves that it can make.
use orca_validator.Prelude.{
  ℕ, suc, ◌+◌, ◌≤◌, ◌≡◌, refl, ◌∙◌, Bool, true, false, List, [], ◌∷◌, ◌++◌, Option, none, some,
  append-nil, arith, Text, if◌then◌else◌,
}
use orca_validator.Pipeline.Database.{Status, queued, running}
use orca_validator.Pipeline.Validate.{is_taken, final_status}

-- Of one run: its status, if it has a row, how many tasks wait and work for it, and the verdicts that
-- are stored for it.
pub record Life : Type 0 where
  pub status : Option Status
  pub waiting : ℕ
  pub working : ℕ
  pub verdicts : List Text

pub data Move (x y : Life) : Type 0 where
  -- nothing happens to the run, or tasks of it go away
  kept :
      y.status ≡ x.status
      → y.waiting ≤ x.waiting
      → y.working ≤ x.working
      → y.verdicts ≡ x.verdicts
      → Move x y
  -- the run is stored and scheduled
  scheduled :
      x.status ≡ none
      → y.status ≡ some queued
      → y.waiting ≡ suc x.waiting
      → y.working ≡ x.working
      → y.verdicts ≡ x.verdicts
      → Move x y
  -- the run is stored, and no task waits for it: Redis raised
  unscheduled :
      x.status ≡ none
      → y.status ≡ some queued
      → y.waiting ≡ x.waiting
      → y.working ≡ x.working
      → y.verdicts ≡ x.verdicts
      → Move x y
  -- a task that waits claims the run
  claimed :
      {st : Status}
      → x.status ≡ some st
      → is_taken st ≡ false
      → y.status ≡ some running
      → x.waiting ≡ suc y.waiting
      → y.working ≡ suc x.working
      → y.verdicts ≡ x.verdicts
      → Move x y
  -- a task that works ends with a result
  ended :
      {st : Status} (v : Text)
      → x.status ≡ some st
      → y.status ≡ some (final_status v)
      → y.waiting ≡ x.waiting
      → x.working ≡ suc y.working
      → y.verdicts ≡ x.verdicts ++ v ∷ []
      → Move x y

-- The moves, of a run that may be another one than the step is about.
pub scheduled_at :
    (b : Bool) (x y : Life)
    → (b ≡ true → x.status ≡ none)
    → y.status ≡ (if b then some queued else x.status)
    → y.waiting ≡ (if b then 1 else 0) + x.waiting
    → y.working ≡ x.working
    → y.verdicts ≡ x.verdicts
    → Move x y
scheduled_at true x y h e w a v = scheduled (h refl) e (omega arith) a v
scheduled_at false x y h e w a v = kept e (omega arith) (omega arith) v

pub unscheduled_at :
    (b : Bool) (x y : Life)
    → (b ≡ true → x.status ≡ none)
    → y.status ≡ (if b then some queued else x.status)
    → y.waiting ≡ x.waiting
    → y.working ≡ x.working
    → y.verdicts ≡ x.verdicts
    → Move x y
unscheduled_at true x y h e w a v = unscheduled (h refl) e w a v
unscheduled_at false x y h e w a v = kept e (omega arith) (omega arith) v

pub claimed_at :
    (b : Bool) (st : Status) (x y : Life)
    → (b ≡ true → x.status ≡ some st)
    → is_taken st ≡ false
    → y.status ≡ (if b then some running else x.status)
    → x.waiting ≡ (if b then 1 else 0) + y.waiting
    → y.working ≡ (if b then 1 else 0) + x.working
    → y.verdicts ≡ x.verdicts
    → Move x y
claimed_at true st x y h k e w a v = claimed (h refl) k e (omega arith) (omega arith) v
claimed_at false st x y h k e w a v = kept e (omega arith) (omega arith) v

pub ended_at :
    (b : Bool) (st : Status) (verdict : Text) (x y : Life)
    → (b ≡ true → x.status ≡ some st)
    → y.status ≡ (if b then some (final_status verdict) else x.status)
    → y.waiting ≡ x.waiting
    → x.working ≡ (if b then 1 else 0) + y.working
    → y.verdicts ≡ x.verdicts ++ (if b then verdict ∷ [] else [])
    → Move x y
ended_at true st verdict x y h e w a v = ended verdict (h refl) e w (omega arith) v
ended_at false st verdict x y h e w a v =
    kept e (omega arith) (omega arith) (v ∙ append-nil x.verdicts)
