-- ===== src/Tests/Pipeline.antt =====
-- The pipeline's theorems at a queued run.
use orca_validator.Pipeline.Environment.{Environment}
use orca_validator.Llm.Classification.{not_json, read_content, no_requirements}
use orca_validator.Pipeline.Validate.Unread.{judge-not_json}
use orca_validator.Tests.Instances.{ascii}
use orca_validator.Prelude.{
  ◌+◌, false, ◌||◌, ◌≡◌, ◌≢◌, refl, true, false, [], ◌∷◌, ◌++◌, some, none, lit, ok, get, arith,
  strip, is_space,
}
use orca_validator.Ocr.Result.{is_ok}
use orca_validator.Ocr.Extract.{extract, is_contract_like}
use orca_validator.Orca.Persistence.{load}
use orca_validator.Orca.Bridge.Steps.{IsFresh}
use orca_validator.Pipeline.Database.{find}
use orca_validator.Pipeline.Environment.{ResultRow}
use orca_validator.Pipeline.Validate.Body.{Claim, judge, classified}
use orca_validator.Pipeline.Validate.{claim_of, process, run_validation}
use orca_validator.Pipeline.Validate.Assess.{is_assessed, is_done}
use orca_validator.Pipeline.Validate.Labels.{is_some, is_skipped, process_labels}
use orca_validator.Pipeline.Validate.Runs.{IsReady}
use orca_validator.Pipeline.Validate.Completion.{
  Completed, run_validation-Completed, run_validation_idem,
}
use orca_validator.Pipeline.Validate.Judged.{machine_key, Holding, judge-classified}
use orca_validator.Pipeline.Validate.Contract.{
  Stored, is_named, judge_missing_core, run_validation_contract,
}
use orca_validator.Tests.Instances.{
  env, without_model, with_model, document, run, world, contract_ocr, model_fields,
}

abbrev claim : Claim env
claim = claim_of env (lit "r1") run document

world-IsReady : IsReady env (lit "r1") world run document
unfolding find
world-IsReady = record { has_run = refl; is_open = refl; has_document = refl }

world-IsFresh : IsFresh env.runtime (machine_key env claim) world.bridge
unfolding get load
world-IsFresh = record { unregistered = refl; unsaved = refl }

readable : is_ok contract_ocr ≡ true
unfolding is_ok strip is_space
readable = refl

with_key : with_model.together_api_key ≢ []
with_key = λ e. ground (arith, e)

lease_like : is_contract_like env.python (lit "Lease") ≡ true
unfolding is_contract_like
lease_like = refl

term_dropped : get (lit "term") model_fields.fields ≡ none
unfolding get
term_dropped = refl

term_unfound : get (lit "term") (extract env.python contract_ocr).fields ≡ some false
unfolding get extract
term_unfound = refl

run_validation_contract_example :
    (res : ResultRow env) × ((run_validation env without_model (lit "r1") world).0 ≡ ok tt)
    × ((run_validation env without_model (lit "r1") world).1.results ≡ [] ++ res ∷ [])
    × Stored env (extract env.python contract_ocr) res
run_validation_contract_example =
    run_validation_contract env without_model (lit "r1") world run document 8 contract_ocr
      world-IsReady refl refl refl refl world-IsFresh refl readable

run_validation-Completed_example :
    Completed env with_model
      (lit "r1")
      world
      run
      document
      (run_validation env with_model (lit "r1") world)
run_validation-Completed_example =
    run_validation-Completed env with_model (lit "r1") world world-IsReady refl

run_validation_idem_example :
    (run_validation env with_model
      (lit "r1")
      (run_validation env without_model (lit "r1") world).1).1
    ≡ (run_validation env without_model (lit "r1") world).1
run_validation_idem_example = run_validation_idem env without_model (lit "r1") with_model world

judge_missing_core_example :
    ((judge env with_model claim world.bridge 7).locals.verdict ≡ lit "fail")
    × (is_named (lit "term") (judge env with_model claim world.bridge 7).locals.reasons ≡ true)
judge_missing_core_example =
    judge_missing_core env with_model claim world.bridge 7 8 9 contract_ocr model_fields
      (lit "term") with_key world-IsFresh refl readable refl lease_like refl term_dropped
      term_unfound

judge-classified_example :
    Holding env
      (classified env claim contract_ocr model_fields)
      (judge env with_model claim world.bridge 7).locals
judge-classified_example =
    judge-classified env with_model claim world.bridge 7 8 9 contract_ocr model_fields with_key
      world-IsFresh refl readable refl

process_labels_example :
    (is_some (process env with_model claim world).0.1.revised_markdown
      ≡ is_done env (process env with_model claim world).0.1.analysis_status)
    × (is_some (process env with_model claim world).0.1.document_fsm
        ≡ is_done env (process env with_model claim world).0.1.analysis_status)
    × ((is_assessed env with_model (process env with_model claim world).0.0
          || is_skipped (process env with_model claim world).0.1.analysis_status)
        ≡ true)
process_labels_example = process_labels env with_model claim world

-- The environment with a model whose classification is no JSON.
abbrev unread : Environment
unread = record env { classify_and_check_fields = λ text t o. (ok no_requirements, o + 1) }

abbrev unread_claim : Claim unread
unread_claim = record {
  run_id = lit "r1";
  doc_type = lit "contract";
  blob_ref = lit "b1.pdf";
  owner = lit "o";
  document_id = lit "d1";
  temperature = 0;
}

unread-IsFresh : IsFresh unread.runtime (machine_key unread unread_claim) world.bridge
unfolding get load
unread-IsFresh = record { unregistered = refl; unsaved = refl }

not_json_read : unread.classify_and_check_fields [] 0 8 ≡ (read_content not_json, 9)
unfolding read_content
not_json_read = refl

document_unlike : is_contract_like ascii (lit "document") ≡ false
unfolding is_contract_like
document_unlike = refl

judge-not_json_example :
    ((judge unread with_model unread_claim world.bridge 7).locals.verdict ≡ lit "pass")
    × ((judge unread with_model unread_claim world.bridge 7).locals.reasons ≡ [])
judge-not_json_example =
    judge-not_json unread with_model unread_claim world.bridge 7 8 9 contract_ocr with_key
      unread-IsFresh refl readable not_json_read document_unlike
