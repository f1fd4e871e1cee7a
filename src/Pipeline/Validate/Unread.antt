-- ===== src/Pipeline/Validate/Unread.antt =====
-- What follows when the model's classification is no JSON.
use orca_validator.Prelude.{◌≡◌, ◌≢◌, refl, ap, ◌∙◌, true, false, [], lit, ok}
use orca_validator.Ocr.Result.{OcrResult, is_ok}
use orca_validator.Ocr.Extract.{Extraction, is_contract_like}
use orca_validator.Llm.Classification.{not_json, read_content, no_requirements}
use orca_validator.Orca.Bridge.{Bridge}
use orca_validator.Orca.Bridge.Steps.{IsFresh}
use orca_validator.Orca.Verdict.{verdict_text, verdict_reasons}
use orca_validator.Pipeline.Environment.{Environment, Settings}
use orca_validator.Pipeline.Validate.Body.{Claim, judge, classified}
use orca_validator.Pipeline.Validate.Judged.{contract_claim, machine_key, judge-classified}

module _ (env : Environment) where
  classified_unread :
      (c : Claim env) (ocr : OcrResult)
      → is_contract_like env.python (lit "document") ≡ false
      → classified env (contract_claim env c) ocr no_requirements ≡ no_requirements
  unfolding classified
  classified_unread c ocr unlike = rw unlike refl

  -- Where a model is set and its classification is no JSON, a contract whose text can be read and
  -- whose machine is new gets the verdict "pass" and no reasons, if "document" is not like a
  -- contract.
  pub judge-not_json :
      (settings : Settings) (c : Claim env) (b : Bridge env.runtime) (o o' o'' : env.Outside)
      (ocr : OcrResult)
      → settings.together_api_key ≢ []
      → IsFresh env.runtime (machine_key env c) b
      → env.parse_document (env.blob_path c.blob_ref) settings.ocr_dpi o ≡ (ok ocr, o')
      → is_ok ocr ≡ true
      → env.classify_and_check_fields ocr.raw_text c.temperature o' ≡ (read_content not_json, o'')
      → is_contract_like env.python (lit "document") ≡ false
      → ((judge env settings (contract_claim env c) b o).locals.verdict ≡ lit "pass")
        × ((judge env settings (contract_claim env c) b o).locals.reasons ≡ [])
  unfolding read_content
  judge-not_json settings c b o o' o'' ocr key fresh parses readable classifies unlike =
      let held =
        judge-classified env settings c b o o' o'' ocr no_requirements key fresh parses readable
          classifies in
      let unread = classified_unread c ocr unlike in
      (
        held.verdict ∙ ap (λ (x : Extraction). verdict_text x.missing_count) unread,
        held.reasons
            ∙ ap (λ (x : Extraction). verdict_reasons x.missing_count x.missing_fields) unread,
      )
