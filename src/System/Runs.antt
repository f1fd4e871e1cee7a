-- ===== src/System/Runs.antt =====
-- The runs in the states that the service can reach.
use orca_validator.Prelude.{refl, Bool, List, arith, Text}
use orca_validator.Pipeline.Database.{find}
use orca_validator.Pipeline.Environment.{Environment}
use orca_validator.Api.Documents.{ApiSettings}
use orca_validator.System.{System, Reach, here, next, IsFresh}
use orca_validator.System.Fits.{IsFit, IsFit-Move}
use orca_validator.System.Idle.{IsIdle, IsIdle-Move}
use orca_validator.Pipeline.Database.{Status}
use orca_validator.System.Steps.{life, life-Step}

module _ (env : Environment) (zero one : env.Temperature)
    (lt : env.Temperature → env.Temperature → Bool) (settings : ApiSettings) where
  IsFit-IsFresh :
      (k : Text) (s : System env zero one lt settings)
      → IsFresh env zero one lt settings s
      → IsFit (life env zero one lt settings k s)
  unfolding find
  IsFit-IsFresh k s h =
      rw (h.runs, h.results, h.queue, h.background, h.started, h.working) (omega arith, refl, refl)

  -- From a service to which no document was submitted yet, whatever requests, workers and background
  -- tasks do, in any order, with processes that die and runs that the queue loses: a run without a
  -- row has no task and no result; a queued run has at most one task, which waits, and no result; a
  -- running one at most one, which works, and no result; and one that is done or failed has no task
  -- and one result, of a verdict that means this status. No run has the status uploaded.
  pub life-IsFit :
      {s t : System env zero one lt settings} (k : Text)
      → IsFresh env zero one lt settings s
      → Reach env zero one lt settings s t
      → IsFit (life env zero one lt settings k t)
  life-IsFit {s} k h here = IsFit-IsFresh k s h
  life-IsFit k h (next r st) =
      IsFit-Move (life-Step env zero one lt settings k st) (life-IsFit k h r)

  -- Nothing that the service does takes up a run again: once no task waits or works for it, as when
  -- the process died between the two transactions, when the run was lost before it was queued, or
  -- when it has ended, its status and the verdicts that are stored for it stay as they are for ever.
  pub life-IsIdle :
      {s t : System env zero one lt settings} {st : Status} {vs : List Text} (k : Text)
      → IsIdle st vs (life env zero one lt settings k s)
      → Reach env zero one lt settings s t
      → IsIdle st vs (life env zero one lt settings k t)
  life-IsIdle k h here = h
  life-IsIdle k h (next r st) =
      IsIdle-Move (life-Step env zero one lt settings k st) (life-IsIdle k h r)
