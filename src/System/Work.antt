-- ===== src/System/Work.antt =====
-- Work on the runs (backend/pipeline/validate.py, backend/pipeline/worker.py, backend/queue.py): the
-- steps of the tasks alone, in which a task writes what the pipeline makes of its run.
use orca_validator.Prelude.{◌≡◌, Bool, List, ◌∷◌, ◌++◌, some, Text, Result, ok}
use orca_validator.Pipeline.Database.{Document, find}
use orca_validator.Pipeline.Environment.{Environment, Settings, World, RunRow}
use orca_validator.Pipeline.Queue.{dequeue}
use orca_validator.Pipeline.Validate.Body.{Claim}
use orca_validator.Pipeline.Validate.{claim, claim_of, process, finish, run_key, document_key}
use orca_validator.Api.Documents.{ApiSettings}
use orca_validator.System.{
  System, world, put_world, take, begin, claim_run, finish_run, elsewhere, Reach, next,
}

module _ (env : Environment) (low high : env.Temperature)
    (lt : env.Temperature → env.Temperature → Bool) (settings : ApiSettings)
    (pipeline : Settings) where
  abbrev pub State : Type 0
  State = System env low high lt settings

  pub data Work : State → State → Type 0 where
    -- a worker takes a run off the queue
    taking :
        (s : State) (r : Text) {queue' : List Text}
        → dequeue s.service.queue ≡ (some r, queue')
        → Work s
            (record s { service = record s.service { queue = queue' }; started = r ∷ s.started })
    -- a background task begins
    beginning :
        (s : State) (before after : List Text) (r : Text)
        → s.service.background ≡ before ++ r ∷ after
        → Work s (record s {
          service = record s.service { background = before ++ after };
          started = r ∷ s.started;
        })
    -- the first transaction of a task claims its run
    claiming :
        (s : State) (before after : List Text) (r : Text) {c : Claim env} {w : World env}
        → s.started ≡ before ++ r ∷ after
        → claim env r (world env low high lt settings s) ≡ (ok (some c), w)
        → Work s (record (put_world env low high lt settings w s) {
          started = before ++ after;
          working = r ∷ s.working;
        })
    -- a task processes its run, and its last transaction writes what comes of that; the fields that it
    -- claimed are still those of the rows, as no transaction writes them
    finishing :
        (s : State) (before after : List Text) (r : Text) (run : RunRow env) (doc : Document)
        {x : Result (Unit {0})} {w : World env}
        → s.working ≡ before ++ r ∷ after
        → find (run_key env) r s.service.runs ≡ some run
        → find (document_key env) run.document_id s.service.documents ≡ some doc
        → finish env r
            (process env pipeline (claim_of env r run doc) (world env low high lt settings s)).0.0
            (process env pipeline (claim_of env r run doc) (world env low high lt settings s)).0.1
            (process env pipeline (claim_of env r run doc) (world env low high lt settings s)).1
          ≡ (x, w)
        → Work s (record (put_world env low high lt settings w s) { working = before ++ after })

  pub data Works (s : State) : State → Type 0 where
    stay : Works s s
    go : {t u : State} → Works s t → Work t u → Works s u

  pub Works-trans : {s t u : State} → Works s t → Works t u → Works s u
  Works-trans r stay = r
  Works-trans r (go q st) = go (Works-trans r q) st

  -- What the tasks do, the service does.
  Reach-Work :
      {s t u : State}
      → Reach env low high lt settings s t
      → Work t u
      → Reach env low high lt settings s u
  unfolding process
  Reach-Work h (taking s r e) = next h (take s r e)
  Reach-Work h (beginning s before after r e) = next h (begin s before after r e)
  Reach-Work h (claiming s before after r e c) = next h (claim_run s before after r e c)
  Reach-Work h (finishing s before after r run doc e found has_document f) =
      let c = claim_of env r run doc in
      let p = process env pipeline c (world env low high lt settings s) in
      next (next h (elsewhere s p.1.bridge p.1.outside)) (
        finish_run (record s { bridge = p.1.bridge; outside = p.1.outside }) before after r p.0.0 _
          _ e f)

  pub Reach-Works :
      {s t u : State}
      → Reach env low high lt settings s t
      → Works t u
      → Reach env low high lt settings s u
  Reach-Works h stay = h
  Reach-Works h (go q st) = Reach-Work (Reach-Works h q) st
