-- ===== src/Pipeline/Validate/Labels.antt =====
-- The assessment's labels tell the truth about what stands beside them.
use orca_validator.Prelude.{
  ◌≡◌, refl, Bool, true, false, ◌||◌, Option, none, some, Text, inl, inr, budget_exceeded, raised,
  Result-cases, Bool-cases, Failure,
}
use orca_validator.Pipeline.Database.{
  AnalysisStatus, analysis_done, analysis_skipped, analysis_error, analysis_budget_exceeded,
  AnalysisEntry, analysed, no_analysis,
}
use orca_validator.Pipeline.Environment.{Environment, Settings, World}
use orca_validator.Pipeline.Validate.Body.{Claim, Locals, judge}
use orca_validator.Pipeline.Validate.Assess.{
  Assessment, assess_failed, revise, analyze, assess, is_assessed, is_done, describe,
}
use orca_validator.Pipeline.Validate.{process}

abbrev pub is_some {ℓ} : {A : Type ℓ} → Option A → Bool
is_some none = false
is_some (some a) = true

-- `analysis_status == "skipped"`
abbrev pub is_skipped : AnalysisStatus → Bool
is_skipped analysis_skipped = true
is_skipped _ = false

module _ (env : Environment) where
  -- A revision is there exactly where the status is "done".
  abbrev IsLabelled : Assessment env → Type 0
  IsLabelled a = is_some a.revised_markdown ≡ is_done env a.analysis_status

  failed-IsLabelled :
      (e : Failure) (so_far : AnalysisEntry env.Analysis) → IsLabelled (assess_failed env so_far e)
  failed-IsLabelled (budget_exceeded t) so_far = refl
  failed-IsLabelled (raised t) so_far = refl

  revise-IsLabelled :
      (c : Claim env) (text : Text) (a : env.Analysis) (o : env.Outside)
      → IsLabelled (revise env c text a o).0
  unfolding revise
  revise-IsLabelled c text a o =
      elim (Result-cases (env.revise_contract text a c.temperature o).0) [
        | inl (t, e) ↦ rw e refl
        | inr (f, e) ↦ rw e (failed-IsLabelled f (analysed a))
      ]

  analyze-IsLabelled :
      (c : Claim env) (text : Text) (o : env.Outside) → IsLabelled (analyze env c text o).0
  unfolding analyze
  analyze-IsLabelled c text o = elim (Result-cases (env.analyze_contract text c.temperature o).0) [
    | inl (a, e) ↦
        rw (e, analyze) (revise-IsLabelled c text a (env.analyze_contract text c.temperature o).1)
    | inr (f, e) ↦ rw (e, analyze) (failed-IsLabelled f no_analysis)
  ]

  assess-IsLabelled :
      (settings : Settings) (c : Claim env) (l : Locals env) (o : env.Outside)
      → IsLabelled (assess env settings c l o).0
        × ((is_assessed env settings l || is_skipped (assess env settings c l o).0.analysis_status)
            ≡ true)
  unfolding assess
  assess-IsLabelled settings c l o = elim (Bool-cases (is_assessed env settings l)) [
    | inl e ↦ rw e (analyze-IsLabelled c l.doc_text o, refl)
    | inr e ↦ rw e (refl, refl)
  ]

  skipped_is_not_done : (s : AnalysisStatus) → is_skipped s ≡ true → false ≡ is_done env s
  skipped_is_not_done analysis_done h = h
  skipped_is_not_done analysis_skipped h = refl
  skipped_is_not_done analysis_error h = refl
  skipped_is_not_done analysis_budget_exceeded h = refl

  is_some-describe :
      (settings : Settings) (c : Claim env) (l : Locals env) (a : Assessment env) (o : env.Outside)
      → (is_assessed env settings l || is_skipped a.analysis_status) ≡ true
      → is_some (describe env settings c l a o).0 ≡ is_done env a.analysis_status
  unfolding describe
  is_some-describe settings c l a o h = elim (Bool-cases (is_assessed env settings l)) [
    | inl e ↦ elim (Bool-cases (is_done env a.analysis_status)) [
      | inl d ↦ rw e (rw d refl)
      | inr d ↦ rw e (rw d refl)
    ]
    | inr e ↦ rw e (skipped_is_not_done a.analysis_status (rw e at h))
  ]

  -- In the row that a run stores, the status of the analysis is "done" exactly where there is a
  -- revision, and exactly where there is a report on the document's own machine; and it is
  -- "skipped" where there was no text, the verdict is "error" or there is no model.
  pub process_labels :
      (settings : Settings) (c : Claim env) (w : World env)
      → (is_some (process env settings c w).0.1.revised_markdown
          ≡ is_done env (process env settings c w).0.1.analysis_status)
        × (is_some (process env settings c w).0.1.document_fsm
            ≡ is_done env (process env settings c w).0.1.analysis_status)
        × ((is_assessed env settings (process env settings c w).0.0
              || is_skipped (process env settings c w).0.1.analysis_status)
            ≡ true)
  unfolding process
  process_labels settings c w =
      let j = judge env settings c w.bridge w.outside in
      let (a, o) = assess env settings c j.locals j.outside in
      let (labelled, skipped) = assess-IsLabelled settings c j.locals j.outside in
      (labelled, is_some-describe settings c j.locals a o skipped, skipped)
