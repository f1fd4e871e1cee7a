-- ===== src/Pipeline/Validate.antt =====
-- backend/pipeline/validate.py: a run is claimed, judged by the machine, assessed by the language
-- model, and its result is written.
pub mod Body
pub mod Assess
pub mod Runs
pub mod Completion
pub mod Judged
pub mod Contract
pub mod Labels
pub mod Unread
pub mod Unclassified
use orca_validator.Prelude.{
  ℕ, Bool, true, false, not, ◌||◌, List, [], ◌∷◌, ◌++◌, Option, none, some, map, Text, lit, join,
  take, any, if◌then◌else◌, Failure, raised, Result, ok, err, Exec, pure, raise, continue, ◌>>=◌,
  ◌>>◌, text_eq,
}
use orca_validator.Orca.Context.{show}
use orca_validator.Pipeline.Database.{
  Status, uploaded, queued, running, done, failed, Document, Run, ValidationResult, FsmReport, find,
  replace,
}
use orca_validator.Pipeline.Environment.{Environment, Settings, World, RunRow, ResultRow}
use Body.{Claim, Locals, Job, judge}
use Assess.{Assessment, assess, describe}

-- `run.status in ("done", "failed", "running")`
abbrev pub is_taken : Status → Bool
is_taken done = true
is_taken failed = true
is_taken running = true
is_taken _ = false

-- An attribute of `None`; nothing has been committed.
abbrev pub missing_row : Failure
missing_row = raised (lit "'NoneType' object has no attribute")

-- `"done" if verdict in ("pass", "fail") else "failed"`
abbrev pub final_status : Text → Status
final_status verdict =
    if text_eq verdict (lit "pass") || text_eq verdict (lit "fail") then done else failed

module _ (env : Environment) where
  abbrev pub run_key : RunRow env → Text
  run_key r = r.id

  abbrev pub document_key : Document → Text
  document_key d = d.id

  abbrev pub claim_of : Text → RunRow env → Document → Claim env
  claim_of run_id run doc = record {
    run_id = run_id;
    doc_type = doc.doc_type;
    blob_ref = doc.blob_ref;
    owner = doc.owner;
    document_id = doc.id;
    temperature = run.temperature;
  }

  -- The world after the first commit.
  abbrev pub claimed : RunRow env → Document → World env → World env
  claimed run doc w = record w {
    runs =
        replace run_key (record run { status = running; started_at = some (env.utcnow w.outside) })
          w.runs;
    documents = replace document_key (record doc { status = running }) w.documents;
  }

  -- The first transaction; `none` is the early return.
  unfoldable pub claim : Text → Exec (World env) (Option (Claim env))
  claim run_id w = elim (find run_key run_id w.runs) [
    | none ↦ (ok none, w)
    | some run ↦
        if is_taken run.status
        then (ok none, w)
        else elim (find document_key run.document_id w.documents) [
          | none ↦ (err missing_row, w)
          | some doc ↦ (ok (some (claim_of run_id run doc)), claimed run doc w)
        ]
  ]

  -- `run.error` is assigned only for the verdict "error".
  abbrev pub final_error : Locals env → Option Text → Option Text
  final_error l old =
      if text_eq l.verdict (lit "error")
      then some (take 1000 (join (lit "; ") (map show l.reasons)))
      else old

  abbrev pub result_of : Text → Locals env → Assessment env → Option FsmReport → ResultRow env
  result_of run_id l a fsm = record {
    run_id = run_id;
    verdict = l.verdict;
    final_state = l.final_state;
    reasons = l.reasons;
    extracted_fields = l.fields;
    document_type = l.document_type;
    analysis = a.analysis;
    revised_markdown = a.revised_markdown;
    analysis_status = a.analysis_status;
    document_fsm = fsm;
  }

  -- The world after the last commit.
  abbrev pub finished : RunRow env → Document → Locals env → ResultRow env → World env → World env
  finished run doc l res w = record w {
    results = w.results ++ res ∷ [];
    runs =
        replace run_key
          (record run {
            status = final_status l.verdict;
            finished_at = some (env.utcnow w.outside);
            error = final_error l run.error;
          })
          w.runs;
    documents = replace document_key (record doc { status = final_status l.verdict }) w.documents;
  }

  -- The last transaction. The column run_id of validation_results is unique.
  unfoldable pub finish : Text → Locals env → ResultRow env → Exec (World env) (Unit {0})
  finish run_id l res w = elim (find run_key run_id w.runs) [
    | none ↦ (err missing_row, w)
    | some run ↦ elim (find document_key run.document_id w.documents) [
      | none ↦ (err missing_row, w)
      | some doc ↦
          if any (λ (r : ResultRow env). text_eq r.run_id run_id) w.results
          then (err (raised (lit "duplicate key value violates unique constraint")), w)
          else (ok tt, finished run doc l res w)
    ]
  ]

  -- What stands between the two transactions: the variables and the result row that it leaves, and
  -- the world with the machines, the snapshots and the outside moved on. It raises nothing.
  unfoldable pub process :
      Settings → Claim env → World env → (Locals env × ResultRow env) × World env
  unfolding judge assess describe
  process settings c w =
      let j = judge env settings c w.bridge w.outside in
      let (a, o) = assess env settings c j.locals j.outside in
      let (fsm, o') = describe env settings c j.locals a o in
      ((j.locals, result_of c.run_id j.locals a fsm), record w { bridge = j.bridge; outside = o' })

  abbrev pub continue_claimed : Settings → Option (Claim env) → Exec (World env) (Unit {0})
  continue_claimed settings none w = (ok tt, w)
  continue_claimed settings (some c) w =
      let ((l, res), w') = process settings c w in finish c.run_id l res w'

  unfoldable pub run_validation : Settings → Text → Exec (World env) (Unit {0})
  run_validation settings run_id = do c ← claim run_id; continue_claimed settings c
