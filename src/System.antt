-- ===== src/System.antt =====
-- The service as a whole: the endpoint that takes documents (backend/api/documents.py), the queue
-- (backend/queue.py), the background tasks and the worker's tasks (backend/pipeline/worker.py), and the
-- two transactions of each task (backend/pipeline/validate.py), in any order.
pub mod Life
pub mod Fits
pub mod Idle
pub mod Distinct
pub mod Final
pub mod Unique
pub mod Paired
pub mod Documents
pub mod Shown
pub mod Work
pub mod Begun
pub mod Progress
pub mod Rows
pub mod Steps
pub mod Runs
pub mod Submitted
use orca_validator.Prelude.{◌≡◌, Bool, List, [], ◌∷◌, ◌++◌, Option, none, some, Text, Result, ok}
use orca_validator.Orca.Bridge.{Bridge}
use orca_validator.Pipeline.Database.{FsmReport}
use orca_validator.Pipeline.Environment.{Environment, World}
use orca_validator.Pipeline.Queue.{dequeue}
use orca_validator.Pipeline.Validate.Body.{Claim, Locals}
use orca_validator.Pipeline.Validate.Assess.{Assessment}
use orca_validator.Pipeline.Validate.{claim, finish, result_of}
use orca_validator.Api.Http.{Response}
use orca_validator.Api.Documents.{Upload, ApiSettings, SubmitResponse, submit_document}
use orca_validator.Api.Documents.Completion.{floats, State, world_of, IsNew}

module _ (env : Environment) (zero one : env.Temperature)
    (lt : env.Temperature → env.Temperature → Bool) (settings : ApiSettings) where
  -- The tables, the queue and the background tasks that wait; the tasks before their first
  -- transaction, and those between it and their last.
  pub record System : Type 0 where
    pub service : State env zero one lt
    pub bridge : Bridge env.runtime
    pub outside : env.Outside
    pub started : List Text
    pub working : List Text

  abbrev pub world : System → World env
  world s = world_of env zero one lt s.service s.bridge s.outside

  -- The system with the rows that a transaction leaves.
  abbrev pub put_world : World env → System → System
  put_world w s = record s {
    service = record s.service { documents = w.documents; runs = w.runs; results = w.results };
    bridge = w.bridge;
    outside = w.outside;
  }

  -- A transaction is one step: no two tasks work on one run (System/Fits). What a task does between
  -- its two transactions is taken to be anything: any verdict and any assessment may be written, and
  -- the bridge and what is outside may change at any time.
  pub data Step : System → System → Type 0 where
    -- a request to submit is answered; the identifiers that the database chooses are new
    submit :
        (s : System) (authorization : Text) (u : Upload env.Temperature env.Time)
        {response : Response SubmitResponse} {service' : State env zero one lt}
        → IsNew env zero one lt u s.service
        → submit_document
            (floats env zero one lt)
            env.Time
            env.Analysis
            settings
            authorization
            u
            s.service
          ≡ (response, service')
        → Step s (record s { service = service' })
    -- a worker takes a run off the queue
    take :
        (s : System) (r : Text) {queue' : List Text}
        → dequeue s.service.queue ≡ (some r, queue')
        → Step s
            (record s { service = record s.service { queue = queue' }; started = r ∷ s.started })
    -- a background task begins
    begin :
        (s : System) (before after : List Text) (r : Text)
        → s.service.background ≡ before ++ r ∷ after
        → Step s (record s {
          service = record s.service { background = before ++ after };
          started = r ∷ s.started;
        })
    -- the first transaction of a task claims its run
    claim_run :
        (s : System) (before after : List Text) (r : Text) {c : Claim env} {w : World env}
        → s.started ≡ before ++ r ∷ after
        → claim env r (world s) ≡ (ok (some c), w)
        → Step s (record (put_world w s) { started = before ++ after; working = r ∷ s.working })
    -- the first transaction is an early return or raises, or the process dies before it
    leave :
        (s : System) (before after : List Text) (r : Text)
        → s.started ≡ before ++ r ∷ after
        → Step s (record s { started = before ++ after })
    -- the last transaction of a task, whether it is committed or raises
    finish_run :
        (s : System) (before after : List Text) (r : Text) (l : Locals env) (a : Assessment env)
        (fsm : Option FsmReport) {x : Result (Unit {0})} {w : World env}
        → s.working ≡ before ++ r ∷ after
        → finish env r l (result_of env r l a fsm) (world s) ≡ (x, w)
        → Step s (record (put_world w s) { working = before ++ after })
    -- the process dies between the two transactions
    die :
        (s : System) (before after : List Text) (r : Text)
        → s.working ≡ before ++ r ∷ after
        → Step s (record s { working = before ++ after })
    -- a run is not put into the queue, or is lost from it
    lose_queued :
        (s : System) (before after : List Text) (r : Text)
        → s.service.queue ≡ before ++ r ∷ after
        → Step s (record s { service = record s.service { queue = before ++ after } })
    -- the process of the endpoint dies with its background tasks
    lose_background :
        (s : System) → Step s (record s { service = record s.service { background = [] } })
    elsewhere :
        (s : System) (b : Bridge env.runtime) (o : env.Outside)
        → Step s (record s { bridge = b; outside = o })

  pub data Reach (s : System) : System → Type 0 where
    here : Reach s s
    next : {t u : System} → Reach s t → Step t u → Reach s u

  pub Reach-trans : {s t u : System} → Reach s t → Reach t u → Reach s u
  Reach-trans r here = r
  Reach-trans r (next q st) = next (Reach-trans r q) st

  -- No document was submitted yet.
  pub record IsFresh (s : System) : Type 0 where
    pub documents : s.service.documents ≡ []
    pub runs : s.service.runs ≡ []
    pub results : s.service.results ≡ []
    pub queue : s.service.queue ≡ []
    pub background : s.service.background ≡ []
    pub started : s.started ≡ []
    pub working : s.working ≡ []
