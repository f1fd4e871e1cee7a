-- ===== src/Pipeline/Validate/Contract.antt =====
-- Validation of contracts from the database's rows to the stored verdict.
use mathlib.Core.Path.{subst}
use orca_validator.Prelude.{
  ◌≡◌, ◌≢◌, refl, sym, ap, ◌∙◌, Bool, true, false, List, [], ◌∷◌, ◌++◌, Option, none, some, map,
  arith, Text, lit, any, Dict, get, length, ok, text_eq, text_eq_iff,
}
use orca_validator.Ocr.Result.{OcrResult, is_ok}
use orca_validator.Ocr.Extract.{
  Extraction, absent, contract_required, extract, is_contract_like, merge_core_contract_fields,
}
use orca_validator.Ocr.Extract.Core.{among, get-merge_core_contract_fields}
use orca_validator.Orca.Context.{show}
use orca_validator.Orca.Bridge.{Bridge}
use orca_validator.Orca.Bridge.Steps.{IsFresh}
use orca_validator.Orca.Machine.{state_name}
use orca_validator.Orca.Verdict.{verdict_text, verdict_reasons, final_state}
use orca_validator.Pipeline.Database.{Document}
use orca_validator.Pipeline.Environment.{Environment, Settings, World, RunRow, ResultRow}
use orca_validator.Pipeline.Validate.Body.{Claim, Locals, judge, classified, hold_to_core, type_or}
use orca_validator.Pipeline.Validate.{claim_of, run_validation}
use orca_validator.Pipeline.Validate.Runs.{IsReady}
use orca_validator.Pipeline.Validate.Completion.{IsJudgement, run_validation-Completed}
use orca_validator.Pipeline.Validate.Judged.{
  contract_claim, machine_key, Holding, judge_deterministic, judge-classified,
}

-- A reason names a field.
abbrev pub is_named : Text → List (Option Text) → Bool
is_named f reasons = any (λ r. text_eq (show r) (lit "missing required field: " ++ f)) reasons

is_named-reasons :
    (f : Text) (fields : List Text)
    → among f fields ≡ true
    → is_named f (map (λ r. some (lit "missing required field: " ++ show r)) (map some fields))
      ≡ true
is_named-reasons f [] h = cc
is_named-reasons f (g ∷ fields) h = ground (arith, is_named-reasons f fields, text_eq_iff g f)

among-absent : (f : Text) (d : Dict Bool) → get f d ≡ some false → among f (absent d) ≡ true
unfolding get absent
among-absent f [] h = cc
among-absent f ((k, b) ∷ d) h = ground (arith, among-absent f d, text_eq_iff k f)

verdict_of_missing :
    (f : Text) (fields : List Text)
    → among f fields ≡ true
    → (verdict_text (length fields) ≡ lit "fail")
      × (is_named f (verdict_reasons (length fields) fields) ≡ true)
verdict_of_missing f [] h = cc
verdict_of_missing f (g ∷ fields) h = (refl, is_named-reasons f (g ∷ fields) h)

classified_missing :
    (env : Environment) (c : Claim env) (ocr : OcrResult) (ext : Extraction) (f : Text)
    → is_contract_like env.python (type_or env ext.document_type c.doc_type) ≡ true
    → among f contract_required ≡ true
    → get f ext.fields ≡ none
    → get f (extract env.python ocr).fields ≡ some false
    → (verdict_text (classified env c ocr ext).missing_count ≡ lit "fail")
      × (is_named f (
            verdict_reasons
              (classified env c ocr ext).missing_count
              (classified env c ocr ext).missing_fields)
          ≡ true)
unfolding classified hold_to_core
classified_missing env c ocr ext f like required dropped unfound =
    let merged = merge_core_contract_fields env.python ext.fields ocr in
    let value : get f merged ≡ some false =
      get-merge_core_contract_fields env.python ext.fields ocr f
      ∙ rw (dropped, required, unfound) refl in
    rw like (verdict_of_missing f (absent merged) (among-absent f merged value))

module _ (env : Environment) where
  -- Where a model is set, has classified the text of a contract, and the machine is new: a required
  -- field that the model dropped and that the deterministic extractor does not find makes a
  -- document of a type that is like a contract fail, and a reason of the verdict names the field.
  pub judge_missing_core :
      (settings : Settings) (c : Claim env) (b : Bridge env.runtime) (o o' o'' : env.Outside)
      (ocr : OcrResult) (ext : Extraction) (f : Text)
      → settings.together_api_key ≢ []
      → IsFresh env.runtime (machine_key env c) b
      → env.parse_document (env.blob_path c.blob_ref) settings.ocr_dpi o ≡ (ok ocr, o')
      → is_ok ocr ≡ true
      → env.classify_and_check_fields ocr.raw_text c.temperature o' ≡ (ok ext, o'')
      → is_contract_like env.python (type_or env ext.document_type (lit "contract")) ≡ true
      → among f contract_required ≡ true
      → get f ext.fields ≡ none
      → get f (extract env.python ocr).fields ≡ some false
      → ((judge env settings (contract_claim env c) b o).locals.verdict ≡ lit "fail")
        × (is_named f (judge env settings (contract_claim env c) b o).locals.reasons ≡ true)
  judge_missing_core settings c b o o' o'' ocr ext f key fresh parses readable classifies like
        required dropped unfound =
      let holding =
        judge-classified env settings c b o o' o'' ocr ext key fresh parses readable classifies in
      let failing =
        classified_missing env (contract_claim env c) ocr ext f like required dropped unfound in
      (holding.verdict ∙ failing.0, ap (is_named f) holding.reasons ∙ failing.1)

  -- The result that a call stores for a contract, when there is no model.
  pub record Stored (ext : Extraction) (res : ResultRow env) : Type 0 where
    pub verdict : res.verdict ≡ verdict_text ext.missing_count
    pub state : res.final_state ≡ state_name (final_state ext.missing_count)
    pub reasons : res.reasons ≡ verdict_reasons ext.missing_count ext.missing_fields
    pub fields : res.extracted_fields ≡ ext.fields

  Holding-Stored :
      (ext : Extraction) (l : Locals env) (res : ResultRow env)
      → Holding env ext l
      → IsJudgement env l res
      → Stored ext res
  Holding-Stored ext l res h j = record {
    verdict = j.verdict ∙ h.verdict;
    state = j.final_state ∙ h.state;
    reasons = j.reasons ∙ h.reasons;
    fields = j.fields ∙ h.fields;
  }

  judge_row :
      (settings : Settings) (run_id : Text) (w : World env) (run : RunRow env) (doc : Document)
      (o' : env.Outside) (ocr : OcrResult)
      → doc.doc_type ≡ lit "contract"
      → settings.together_api_key ≡ []
      → settings.extractor ≡ lit "deterministic"
      → IsFresh env.runtime (machine_key env (claim_of env run_id run doc)) w.bridge
      → env.parse_document (env.blob_path doc.blob_ref) settings.ocr_dpi w.outside ≡ (ok ocr, o')
      → is_ok ocr ≡ true
      → Holding env
          (extract env.python ocr)
          (judge env settings (claim_of env run_id run doc) w.bridge w.outside).locals
  judge_row settings run_id w run doc o' ocr contract no_key plain fresh parses readable =
      let c = claim_of env run_id run doc in
      subst
        (λ t.
          Holding env (extract env.python ocr)
            (judge env settings (record c { doc_type = t }) w.bridge w.outside).locals)
        (sym contract)
        (judge_deterministic env settings c w.bridge w.outside o' ocr no_key plain fresh parses
          readable)

  -- From the rows to the stored verdict: where no model is set, the extractor is the deterministic
  -- one, and a run that can be claimed, has no result yet and whose machine is new is on a contract
  -- whose text can be read, the call returns and appends one result, which holds the verdict, the
  -- final state, the reasons and the fields that the deterministic extraction leads to.
  pub run_validation_contract :
      (settings : Settings) (run_id : Text) (w : World env) (run : RunRow env) (doc : Document)
      (o' : env.Outside) (ocr : OcrResult)
      → IsReady env run_id w run doc
      → any (λ (r : ResultRow env). text_eq r.run_id run_id) w.results ≡ false
      → doc.doc_type ≡ lit "contract"
      → settings.together_api_key ≡ []
      → settings.extractor ≡ lit "deterministic"
      → IsFresh env.runtime (machine_key env (claim_of env run_id run doc)) w.bridge
      → env.parse_document (env.blob_path doc.blob_ref) settings.ocr_dpi w.outside ≡ (ok ocr, o')
      → is_ok ocr ≡ true
      → (res : ResultRow env) × ((run_validation env settings run_id w).0 ≡ ok tt)
        × ((run_validation env settings run_id w).1.results ≡ w.results ++ res ∷ [])
        × Stored (extract env.python ocr) res
  run_validation_contract settings run_id w run doc o' ocr ready unique contract no_key plain fresh
        parses readable =
      let done = run_validation-Completed env settings run_id w ready unique in
      let holding =
        judge_row settings run_id w run doc o' ocr contract no_key plain fresh parses readable in
      (
        done.res,
        done.returns,
        done.results,
        Holding-Stored (extract env.python ocr) _ done.res holding done.judged,
      )
