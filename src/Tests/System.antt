-- ===== src/Tests/System.antt =====
-- The theorems of the whole service, on one submission that is worked off by a background task.
use orca_validator.Prelude.{ℕ, ◌≡◌, ◌<◌, some, arith, refl, [], ◌∷◌, none, Text, lit, ltb, get}
use orca_validator.Pipeline.Database.{
  done, running, Document, queued, no_analysis, analysis_skipped, find, replace,
}
use orca_validator.Pipeline.Environment.{World, RunRow}
use orca_validator.Pipeline.Validate.Body.{Locals}
use orca_validator.Pipeline.Validate.Assess.{Assessment}
use orca_validator.Pipeline.Validate.{claim, finish, result_of, run_key, document_key}
use orca_validator.Api.Http.{is_ascii, compare_digest}
use orca_validator.Orca.Bridge.{is_supported}
use orca_validator.Api.Documents.{submit_document}
use orca_validator.Api.Documents.Completion.{floats}
use orca_validator.Api.Documents.Retrieval.{get_result}
use orca_validator.System.{
  System, submit, begin, claim_run, finish_run, elsewhere, Reach, here, next, IsFresh, world,
  put_world,
}
use orca_validator.System.Life.{Move}
use orca_validator.System.Fits.{IsFit}
use orca_validator.System.Idle.{IsIdle}
use orca_validator.System.Steps.{life, life-Step, status_at, waiting}
use orca_validator.System.Runs.{life-IsFit, life-IsIdle}
use orca_validator.System.Paired.{IsPaired}
use orca_validator.System.Documents.{service-IsPaired}
use orca_validator.System.Progress.{EndsWith, verdict_of, queued-EndsWith}
use orca_validator.System.Rows.{verdicts_at}
use orca_validator.System.Final.{status_at-final}
use orca_validator.System.Work.{Works}
use orca_validator.System.Shown.{IsHonest, get_result-IsHonest}
use orca_validator.Tests.Instances.{env, without_model}
use orca_validator.Tests.Service.{settings, upload, empty_service, upload-IsNew}

abbrev ServiceSystem : Type 0
ServiceSystem = System env 0 1 ltb settings

abbrev fresh : ServiceSystem
fresh = record {
  service = empty_service;
  bridge = record { machines = []; table = [] };
  outside = 7;
  started = [];
  working = [];
}

fresh-IsFresh : IsFresh env 0 1 ltb settings fresh
fresh-IsFresh = record {
  documents = refl;
  runs = refl;
  results = refl;
  queue = refl;
  background = refl;
  started = refl;
  working = refl;
}

-- After the request, after its task began, and after the task claimed the run.
abbrev submitted : ServiceSystem
submitted = record fresh {
  service =
      (submit_document (floats env 0 1 ltb) ℕ Text settings (lit "Bearer k") upload
        empty_service).1;
}

abbrev begun : ServiceSystem
begun = record submitted {
  service = record submitted.service { background = [] };
  started = lit "r1" ∷ [];
}

abbrev claimed_world : World env
claimed_world = (claim env (lit "r1") (world env 0 1 ltb settings begun)).1

abbrev at_work : ServiceSystem
at_work = record (put_world env 0 1 ltb settings claimed_world begun) {
  started = [];
  working = lit "r1" ∷ [];
}

abbrev judgement : Locals env
judgement = record {
  verdict = lit "fail";
  final_state = lit "invalid";
  reasons = [];
  fields = [];
  doc_text = lit "a lease";
  document_type = lit "Lease";
}

abbrev assessment : Assessment env
assessment = record {
  analysis = no_analysis;
  revised_markdown = none;
  analysis_status = analysis_skipped;
}

abbrev finished_world : World env
finished_world =
    (finish env (lit "r1") judgement (result_of env (lit "r1") judgement assessment none)
      (world env 0 1 ltb settings at_work)).1

abbrev over : ServiceSystem
over = record (put_world env 0 1 ltb settings finished_world at_work) { working = [] }

at_work-Reach : Reach env 0 1 ltb settings fresh at_work
unfolding submit_document claim find compare_digest is_ascii is_supported get
at_work-Reach =
    next
      (next (next here (submit fresh (lit "Bearer k") upload upload-IsNew refl))
        (begin submitted [] [] (lit "r1") refl))
      (claim_run begun [] [] (lit "r1") refl refl)

finished-Reach : Reach env 0 1 ltb settings at_work over
unfolding claim finish find
finished-Reach = next here (finish_run at_work [] [] (lit "r1") judgement assessment none refl refl)

over-Reach : Reach env 0 1 ltb settings fresh over
unfolding submit_document claim finish find compare_digest is_ascii is_supported get
over-Reach =
    next at_work-Reach (finish_run at_work [] [] (lit "r1") judgement assessment none refl refl)

life-Step_example :
    Move
      (life env 0 1 ltb settings (lit "r1") fresh)
      (life env 0 1 ltb settings (lit "r1") submitted)
unfolding submit_document
life-Step_example =
    life-Step env 0 1 ltb settings (lit "r1")
      (submit fresh (lit "Bearer k") upload upload-IsNew refl)

life-IsFit_example : IsFit (life env 0 1 ltb settings (lit "r1") over)
life-IsFit_example = life-IsFit env 0 1 ltb settings (lit "r1") fresh-IsFresh over-Reach

get_result-IsHonest_example :
    IsHonest
      (λ k. status_at env 0 1 ltb settings k over)
      (get_result ltb (lit "d1") at_work.service over.service)
get_result-IsHonest_example =
    get_result-IsHonest env 0 1 ltb settings ltb (lit "d1") fresh-IsFresh at_work-Reach
      finished-Reach

service-IsPaired_example : IsPaired over.service.runs over.service.documents
service-IsPaired_example = service-IsPaired env 0 1 ltb settings fresh-IsFresh over-Reach

-- The process died while the task was at work, and the bridge is empty again.
abbrev left_behind : ServiceSystem
left_behind = record at_work { working = [] }

abbrev restarted : ServiceSystem
restarted = record left_behind { bridge = record { machines = []; table = [] }; outside = 8 }

left_behind-IsIdle : IsIdle running [] (life env 0 1 ltb settings (lit "r1") left_behind)
unfolding submit_document claim find compare_digest is_ascii is_supported get replace
left_behind-IsIdle = (refl, refl, refl, refl)

life-IsIdle_example : IsIdle running [] (life env 0 1 ltb settings (lit "r1") restarted)
life-IsIdle_example =
    life-IsIdle env 0 1 ltb settings (lit "r1") left_behind-IsIdle
      (next here (elsewhere left_behind (record { machines = []; table = [] }) 8))

submitted-Reach : Reach env 0 1 ltb settings fresh submitted
submitted-Reach = next here (submit fresh (lit "Bearer k") upload upload-IsNew refl)

submitted_queued :
    (status_at env 0 1 ltb settings (lit "r1") submitted ≡ some queued)
    × (0 < waiting env 0 1 ltb settings (lit "r1") submitted)
unfolding submit_document find compare_digest is_ascii is_supported get
submitted_queued = (refl, omega arith)

queued-EndsWith_example :
    (run : RunRow env) × (doc : Document) × (find (run_key env) (lit "r1") submitted.service.runs
      ≡ some run)
    × (find (document_key env) run.document_id submitted.service.documents ≡ some doc)
    × ((u : ServiceSystem) × Works env 0 1 ltb settings without_model submitted u
        × EndsWith env 0 1 ltb settings
            (verdict_of env 0 1 ltb settings without_model (lit "r1") run doc submitted)
            (lit "r1")
            u)
queued-EndsWith_example =
    queued-EndsWith env 0 1 ltb settings without_model (lit "r1") fresh-IsFresh submitted-Reach
      submitted_queued.0 submitted_queued.1

over_done : status_at env 0 1 ltb settings (lit "r1") over ≡ some done
unfolding submit_document claim finish find compare_digest is_ascii is_supported get replace
over_done = refl

-- The state after the run, with another bridge.
abbrev elsewhere_over : ServiceSystem
elsewhere_over = record over { bridge = record { machines = []; table = [] }; outside = 9 }

status_at-final_example :
    (status_at env 0 1 ltb settings (lit "r1") elsewhere_over ≡ some done)
    × (verdicts_at (lit "r1") elsewhere_over.service.results
        ≡ verdicts_at (lit "r1") over.service.results)
status_at-final_example =
    status_at-final env 0 1 ltb settings (lit "r1") done fresh-IsFresh over-Reach
      (next here (elsewhere over (record { machines = []; table = [] }) 9)) over_done refl
