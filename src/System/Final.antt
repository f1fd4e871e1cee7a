-- ===== src/System/Final.antt =====
-- The status of a run goes forward only, and a result that is stored stays.
use orca_validator.Prelude.{
  ℕ, ◌≤◌, ◌≡◌, refl, Bool, false, Option, none, some, arith, Text, text_eq, lit, ◌||◌, Bool-cases,
  inl, inr,
}
use orca_validator.Pipeline.Database.{Status, uploaded, queued, running, done, failed}
use orca_validator.Pipeline.Environment.{Environment}
use orca_validator.Pipeline.Validate.{is_taken, final_status}
use orca_validator.Api.Documents.{ApiSettings}
use orca_validator.System.{System, Reach, here, next, IsFresh}
use orca_validator.System.Rows.{verdicts_at}
use orca_validator.System.Life.{Life, Move, kept, scheduled, unscheduled, claimed, ended}
use orca_validator.System.Fits.{IsFit}
use orca_validator.System.Idle.{IsIdle}
use orca_validator.System.Steps.{life, life-Step, status_at}
use orca_validator.System.Runs.{life-IsFit, life-IsIdle}

-- How far a run is: unknown, waiting, running, at its end.
abbrev pub progress : Option Status → ℕ
progress none = 0
progress (some uploaded) = 1
progress (some queued) = 1
progress (some running) = 2
progress (some done) = 3
progress (some failed) = 3

progress_open : (st : Status) → is_taken st ≡ false → progress (some st) ≤ 2
progress_open uploaded h = omega arith
progress_open queued h = omega arith
progress_open running h = omega arith
progress_open done h = cc
progress_open failed h = cc

progress-le : (o : Option Status) → progress o ≤ 3
progress-le none = omega arith
progress-le (some uploaded) = omega arith
progress-le (some queued) = omega arith
progress-le (some running) = omega arith
progress-le (some done) = omega arith
progress-le (some failed) = omega arith

progress_final :
    (verdict : Text) (o : Option Status) → progress o ≤ progress (some (final_status verdict))
progress_final verdict o =
    elim (Bool-cases (text_eq verdict (lit "pass") || text_eq verdict (lit "fail"))) [
      | inl e ↦ rw e (progress-le o)
      | inr e ↦ rw e (progress-le o)
    ]

progress-Move : {x y : Life} → Move x y → progress x.status ≤ progress y.status
progress-Move (kept e w a v) = rw e (omega arith)
progress-Move (scheduled h e w a v) = rw (h, e) (omega arith)
progress-Move (unscheduled h e w a v) = rw (h, e) (omega arith)
progress-Move (claimed {st} h k e w a v) = rw (h, e) (progress_open st k)
progress-Move {x} (ended v h e w a vs) = rw e (progress_final v x.status)

-- At its end, a run that fits has no task.
IsFit-IsIdle :
    (x : Life) (st : Status)
    → x.status ≡ some st
    → progress (some st) ≡ 3
    → IsFit x
    → IsIdle st x.verdicts x
IsFit-IsIdle x uploaded e h f = absurd (omega (arith, h))
IsFit-IsIdle x queued e h f = absurd (omega (arith, h))
IsFit-IsIdle x running e h f = absurd (omega (arith, h))
IsFit-IsIdle x done e h f = let (w, a, _) = rw e at f in (e, w, a, refl)
IsFit-IsIdle x failed e h f = let (w, a, _) = rw e at f in (e, w, a, refl)

module _ (env : Environment) (zero one : env.Temperature)
    (lt : env.Temperature → env.Temperature → Bool) (settings : ApiSettings) where
  -- Whatever the service does, no run goes back: from waiting, through running, to its end.
  pub progress-Reach :
      {s t : System env zero one lt settings} (k : Text)
      → Reach env zero one lt settings s t
      → progress (status_at env zero one lt settings k s)
        ≤ progress (status_at env zero one lt settings k t)
  progress-Reach k here = omega arith
  progress-Reach k (next r st) =
      omega (arith, progress-Reach k r, progress-Move (life-Step env zero one lt settings k st))

  -- From a service to which no document was submitted yet: once a run is done or failed, its status
  -- and the verdicts that are stored for it never change, whatever the service does.
  pub status_at-final :
      {s t u : System env zero one lt settings} (k : Text) (st : Status)
      → IsFresh env zero one lt settings s
      → Reach env zero one lt settings s t
      → Reach env zero one lt settings t u
      → status_at env zero one lt settings k t ≡ some st
      → progress (some st) ≡ 3
      → (status_at env zero one lt settings k u ≡ some st)
        × (verdicts_at k u.service.results ≡ verdicts_at k t.service.results)
  status_at-final {s} {t} k st h r r' e final =
      let idle =
        IsFit-IsIdle (life env zero one lt settings k t) st e final
          (life-IsFit env zero one lt settings k h r) in
      let after = life-IsIdle env zero one lt settings k idle r' in (after.0, after.3)
