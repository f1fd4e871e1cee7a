-- ===== src/Pipeline/Validate/Assess.antt =====
-- The assessment by the language model, and the machine that the document itself describes: the
-- best-effort part of run_validation.
use orca_validator.Prelude.{
  Bool, true, false, not, ◌&&◌, ◌++◌, Option, none, some, Text, lit, is_empty, take, if◌then◌else◌,
  Failure, budget_exceeded, raised, Result, ok, err, text_eq,
}
use orca_validator.Pipeline.Database.{
  AnalysisStatus, analysis_done, analysis_skipped, analysis_error, analysis_budget_exceeded,
  AnalysisEntry, no_analysis, analysed, analysis_failed, FsmReport,
}
use orca_validator.Pipeline.Environment.{Environment, Settings, llm_enabled}
use orca_validator.Pipeline.Validate.Body.{Claim, Locals}

module _ (env : Environment) where
  pub record Assessment : Type 0 where
    pub analysis : AnalysisEntry env.Analysis
    pub revised_markdown : Option Text
    pub analysis_status : AnalysisStatus

  -- The values before the block.
  abbrev pub no_assessment : Assessment
  no_assessment = record {
    analysis = no_analysis;
    revised_markdown = none;
    analysis_status = analysis_skipped;
  }

  -- The two `except` clauses; an analysis that was assigned before the raise stays, unless the
  -- error replaces it.
  abbrev pub assess_failed : AnalysisEntry env.Analysis → Failure → Assessment
  assess_failed so_far (budget_exceeded t) = record no_assessment {
    analysis = so_far;
    analysis_status = analysis_budget_exceeded;
  }
  assess_failed so_far (raised t) = record no_assessment {
    analysis = analysis_failed (take 500 t);
    analysis_status = analysis_error;
  }

  unfoldable pub revise : Claim env → Text → env.Analysis → env.Outside → Assessment × env.Outside
  revise c text analysis o =
      let (r, o') = env.revise_contract text analysis c.temperature o in
      (
        elim r [
          | ok t ↦ record {
            analysis = analysed analysis;
            revised_markdown = some t;
            analysis_status = analysis_done;
          }
          | err e ↦ assess_failed (analysed analysis) e
        ],
        o',
      )

  -- `doc_text and verdict != "error" and settings.llm_enabled`
  abbrev pub is_assessed : Settings → Locals env → Bool
  is_assessed settings l =
      not (is_empty l.doc_text) && (not (text_eq l.verdict (lit "error")) && llm_enabled settings)

  unfoldable pub analyze : Claim env → Text → env.Outside → Assessment × env.Outside
  unfolding revise
  analyze c text o =
      let (r, o') = env.analyze_contract text c.temperature o in
      elim r [ ok a ↦ revise c text a o' | err e ↦ (assess_failed no_analysis e, o') ]

  unfoldable pub assess : Settings → Claim env → Locals env → env.Outside → Assessment × env.Outside
  unfolding analyze
  assess settings c l o =
      if is_assessed settings l then analyze c l.doc_text o else (no_assessment, o)

  -- `analysis_status == "done"`
  abbrev pub is_done : AnalysisStatus → Bool
  is_done analysis_done = true
  is_done _ = false

  abbrev pub unverified : Text → FsmReport
  unverified report = record { orca_md = none; mermaid = none; verified = false; report = report }

  abbrev pub fsm_failed : Failure → FsmReport
  fsm_failed (budget_exceeded t) = unverified (lit "skipped (LLM budget reached)")
  fsm_failed (raised t) = unverified (lit "extraction failed: " ++ t)

  abbrev pub fsm_or_failed : Result FsmReport → FsmReport
  fsm_or_failed (ok r) = r
  fsm_or_failed (err e) = fsm_failed e

  unfoldable pub compile : Claim env → Text → env.Outside → FsmReport × env.Outside
  compile c text o =
      let (r, o') = env.extract_state_machine text c.temperature o in
      elim r [
        | ok orca_md ↦ let (s, o'') = env.verify_and_compile orca_md o' in (fsm_or_failed s, o'')
        | err e ↦ (fsm_failed e, o')
      ]

  unfoldable pub describe :
      Settings → Claim env → Locals env → Assessment → env.Outside → Option FsmReport × env.Outside
  unfolding compile
  describe settings c l a o =
      if is_assessed settings l && is_done a.analysis_status
      then (let (r, o') = compile c l.doc_text o in (some r, o'))
      else (none, o)
