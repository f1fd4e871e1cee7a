-- ===== src/App/Defaults.antt =====
-- What the service does where only the required settings are given.
use orca_validator.Prelude.{◌≡◌, refl, ap, ◌∙◌, true, false, none, some, Option, arith, Text}
use orca_validator.Pipeline.Database.{
  AnalysisStatus, analysis_done, analysis_skipped, analysis_error, analysis_budget_exceeded,
}
use orca_validator.Pipeline.Environment.{Environment, World}
use orca_validator.Pipeline.Validate.Body.{Claim}
use orca_validator.Pipeline.Validate.Assess.{is_done}
use orca_validator.Pipeline.Validate.{process}
use orca_validator.Pipeline.Validate.Labels.{is_some, is_skipped, process_labels}
use orca_validator.App.Config.{default_config, pipeline_settings}

skipped_only : (s : AnalysisStatus) → is_skipped s ≡ true → s ≡ analysis_skipped
skipped_only analysis_skipped h = refl
skipped_only analysis_done h = cc
skipped_only analysis_error h = cc
skipped_only analysis_budget_exceeded h = cc

is_some-none : {A : Type 0} (o : Option A) → is_some o ≡ false → o ≡ none
is_some-none none h = refl
is_some-none (some a) h = cc

-- Without a key for the model: whatever the document, the row that a run stores says that the
-- analysis was skipped, and has no revision and no machine of the document.
pub process-default_config :
    (env : Environment) (database_url api_key : Text) (c : Claim env) (w : World env)
    → ((process env
          (pipeline_settings (default_config database_url api_key))
          c
          w).0.1.analysis_status
        ≡ analysis_skipped)
      × ((process env
            (pipeline_settings (default_config database_url api_key))
            c
            w).0.1.revised_markdown
          ≡ none)
      × ((process env
            (pipeline_settings (default_config database_url api_key))
            c
            w).0.1.document_fsm
          ≡ none)
process-default_config env database_url api_key c w =
    let settings = pipeline_settings (default_config database_url api_key) in
    let (revised, fsm, skipped) = process_labels env settings c w in
    let row = (process env settings c w).0.1 in
    let status : row.analysis_status ≡ analysis_skipped =
      skipped_only row.analysis_status (ground (arith, skipped)) in
    (
      status,
      is_some-none row.revised_markdown (revised ∙ ap (is_done env) status),
      is_some-none row.document_fsm (fsm ∙ ap (is_done env) status),
    )
