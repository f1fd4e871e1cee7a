-- ===== src/Pipeline/Validate/Unclassified.antt =====
-- What follows when the model's classification raises.
use mathlib.Core.Path.{subst}
use orca_validator.Prelude.{
  ◌≡◌, ◌≢◌, refl, sym, true, [], ◌∷◌, some, lit, Failure, message, err, ok,
}
use orca_validator.Ocr.Result.{OcrResult, is_ok}
use orca_validator.Orca.Context.{str}
use orca_validator.Orca.Bridge.{Bridge}
use orca_validator.Orca.Bridge.Steps.{IsFresh, get_or_create_fresh}
use orca_validator.Pipeline.Environment.{Environment, Settings}
use orca_validator.Pipeline.Validate.Body.{Claim, Locals, extraction, judge, try_body}
use orca_validator.Pipeline.Validate.Judged.{contract_claim, machine_key, llm_enabled_lem}

module _ (env : Environment) where
  -- The variables after a raise, the text of the document being read.
  pub record Raised (e : Failure) (ocr : OcrResult) (l : Locals env) : Type 0 where
    pub verdict : l.verdict ≡ lit "error"
    pub state : l.final_state ≡ lit "error"
    pub reasons : l.reasons ≡ some (message e) ∷ []
    pub text : l.doc_text ≡ ocr.raw_text

  judge_unclassified :
      (settings : Settings) (c : Claim env) (b : Bridge env.runtime) (o o' o'' : env.Outside)
      (ocr : OcrResult) (e : Failure)
      → settings.together_api_key ≢ []
      → IsFresh env.runtime (machine_key env c) b
      → env.parse_document (env.blob_path c.blob_ref) settings.ocr_dpi o ≡ (ok ocr, o')
      → is_ok ocr ≡ true
      → env.classify_and_check_fields ocr.raw_text c.temperature o' ≡ (err e, o'')
      → Raised e ocr (judge env settings (contract_claim env c) b o).locals
  unfolding judge try_body extraction
  judge_unclassified settings c b o o' o'' ocr e key fresh parses readable classifies =
      let made =
        get_or_create_fresh env.runtime c.run_id (lit "document_id") (str c.document_id)
          ((lit "owner", str c.owner) ∷ (lit "tenant_id", str c.owner) ∷ []) b fresh in
      rw made (
        rw parses (
          rw readable (
            rw (llm_enabled_lem settings key) (
              rw classifies
                (record { verdict = refl; state = refl; reasons = refl; text = refl })))))

  -- The same for a claim whose document is a contract.
  pub judge-Raised :
      (settings : Settings) (c : Claim env) (b : Bridge env.runtime) (o o' o'' : env.Outside)
      (ocr : OcrResult) (e : Failure)
      → c.doc_type ≡ lit "contract"
      → settings.together_api_key ≢ []
      → IsFresh env.runtime (machine_key env c) b
      → env.parse_document (env.blob_path c.blob_ref) settings.ocr_dpi o ≡ (ok ocr, o')
      → is_ok ocr ≡ true
      → env.classify_and_check_fields ocr.raw_text c.temperature o' ≡ (err e, o'')
      → Raised e ocr (judge env settings c b o).locals
  judge-Raised settings c b o o' o'' ocr e contract key fresh parses readable classifies =
      subst (λ t. Raised e ocr (judge env settings (record c { doc_type = t }) b o).locals)
        (sym contract)
        (judge_unclassified settings c b o o' o'' ocr e key fresh parses readable classifies)
