-- ===== src/Pipeline/Validate/Judged.antt =====
-- The verdict of a run is the verdict of its machine, which counts the missing fields.
use orca_validator.Prelude.{
  ℕ, zero, suc, ◌≡◌, ◌≢◌, refl, ap, true, [], ◌∷◌, none, some, arith, Text, lit, put, ok,
}
use orca_validator.Ocr.Result.{OcrResult, is_ok}
use orca_validator.Ocr.Extract.{Extraction, extract, extract_as}
use orca_validator.Orca.Context.{str}
use orca_validator.Orca.Machine.{received, validating, Machine, extracted, evaluate, state_name}
use orca_validator.Orca.Bridge.{Bridge, run_key, loaded}
use orca_validator.Orca.Bridge.Steps.{
  Registered, IsFresh, get_or_create_fresh, put_machine, put_machine-Registered, send-Registered,
}
use orca_validator.Orca.Verdict.{payload_of, final_state, verdict_text, verdict_reasons, Judged}
use orca_validator.Orca.Verdict.Steps.{extracted_step, evaluate_step}
use orca_validator.Pipeline.Environment.{Environment, Settings, llm_enabled}
use orca_validator.Pipeline.Validate.Body.{
  Claim, Locals, Job, start_context, initial_locals, classified, extraction, verdict_or, conclude,
  drive, try_body, judge, type_or,
}

pub llm_enabled_lem : (s : Settings) → s.together_api_key ≢ [] → llm_enabled s ≡ true
llm_enabled_lem s h = ground arith

module _ (env : Environment) where
  -- The claim of a run on a contract, and the key of its machine.
  abbrev pub contract_claim : Claim env → Claim env
  contract_claim c = record c { doc_type = lit "contract" }

  abbrev pub machine_key : Claim env → Text
  machine_key c = run_key env.runtime (lit "contract") c.run_id

  -- The variables hold the verdict, the final state and the reasons that an extraction leads to.
  pub record Holding (ext : Extraction) (l : Locals env) : Type 0 where
    pub verdict : l.verdict ≡ verdict_text ext.missing_count
    pub state : l.final_state ≡ state_name (final_state ext.missing_count)
    pub reasons : l.reasons ≡ verdict_reasons ext.missing_count ext.missing_fields
    pub fields : l.fields ≡ ext.fields

  verdict_or-verdict_text :
      (n : ℕ) (t : Text) → verdict_or env (some (str (verdict_text n))) t ≡ verdict_text n
  verdict_or-verdict_text zero t = refl
  verdict_or-verdict_text (suc n) t = refl

  conclude-Holding :
      (ext : Extraction) (m : Machine) (l : Locals env)
      → Judged ext.missing_count ext.missing_fields m
      → l.fields ≡ ext.fields
      → Holding ext (conclude env m l)
  unfolding conclude
  conclude-Holding ext m l judged fields = record {
    verdict = rw judged.verdict (verdict_or-verdict_text ext.missing_count (state_name m.state));
    state = ap state_name judged.state;
    reasons = rw judged.reasons refl;
    fields = fields;
  }

  -- From a registered machine that is waiting, the two events lead to the verdict.
  drive-Holding :
      (c : Claim env) (ext : Extraction) (j : Job env) (m : Machine)
      → Registered env.runtime (machine_key c) m j.bridge
      → m.state ≡ received
      → (j' : Job env) × (drive env (contract_claim c) ext j ≡ (ok tt, j')) × Holding ext j'.locals
  unfolding drive
  drive-Holding c ext j m registered at =
      let rt = env.runtime in
      let key = machine_key c in
      let (c1, sends1, facts) = extracted_step rt ext m at in
      let m1 : Machine = record { state = validating; context = c1 } in
      let (m2, sends2, judged) = evaluate_step rt ext.missing_count ext.missing_fields c1 facts in
      let b0 : Bridge rt = record {
        machines = put key m j.bridge.machines;
        table = j.bridge.table;
      } in
      let b1 = put_machine rt key m1 b0 in
      let step1 =
        send-Registered rt c.run_id extracted (payload_of ext) m m1 j.bridge registered sends1 in
      let step2 =
        send-Registered rt c.run_id evaluate [] m1 m2 b1 (put_machine-Registered rt key m1 b0)
          sends2 in
      (
        record j {
          bridge = put_machine rt key m2 (record b1 { machines = put key m1 b1.machines });
          locals = conclude env m2 (record j.locals { fields = ext.fields });
        },
        rw step1 (rw step2),
        conclude-Holding ext m2 (record j.locals { fields = ext.fields }) judged refl,
      )

  -- What a run on a fresh contract has after its machine was made and its document parsed.
  abbrev fresh_machine : Claim env → Machine
  fresh_machine c = loaded env.runtime none (start_context env c)

  fresh_machine_state : (c : Claim env) → (fresh_machine c).state ≡ received
  fresh_machine_state c = env.runtime.start_state (start_context env c)

  -- The job once the text has been read.
  abbrev parsed : Claim env → OcrResult → Bridge env.runtime → env.Outside → Job env
  parsed c ocr b o = record {
    bridge = put_machine env.runtime (machine_key c) (fresh_machine c) b;
    outside = o;
    locals = record (initial_locals env (contract_claim c)) { doc_text = ocr.raw_text };
  }

  extraction_deterministic :
      (settings : Settings) (c : Claim env) (ocr : OcrResult) (j : Job env)
      → settings.together_api_key ≡ []
      → settings.extractor ≡ lit "deterministic"
      → extraction env settings (contract_claim c) ocr j ≡ (ok (extract env.python ocr), j)
  unfolding extraction extract_as
  extraction_deterministic settings c ocr j no_key plain = rw no_key (rw plain)

  extraction-classified :
      (settings : Settings) (c : Claim env) (ocr : OcrResult) (ext : Extraction) (j : Job env)
      (o : env.Outside)
      → settings.together_api_key ≢ []
      → env.classify_and_check_fields ocr.raw_text c.temperature j.outside ≡ (ok ext, o)
      → extraction env settings (contract_claim c) ocr j ≡ (
        ok (classified env (contract_claim c) ocr ext),
        record j {
          outside = o;
          locals = record j.locals {
            document_type = type_or env ext.document_type (lit "contract");
          };
        },
      )
  unfolding extraction
  extraction-classified settings c ocr ext j o key classifies =
      rw (llm_enabled_lem settings key) (rw classifies)

  -- With the text read, the verdict is that of whatever extraction follows.
  judge-Holding :
      (settings : Settings) (c : Claim env) (b : Bridge env.runtime) (o o' : env.Outside)
      (ocr : OcrResult) (ext : Extraction) (j : Job env)
      → IsFresh env.runtime (machine_key c) b
      → env.parse_document (env.blob_path c.blob_ref) settings.ocr_dpi o ≡ (ok ocr, o')
      → is_ok ocr ≡ true
      → extraction env settings (contract_claim c) ocr (parsed c ocr b o') ≡ (ok ext, j)
      → j.bridge ≡ put_machine env.runtime (machine_key c) (fresh_machine c) b
      → Holding ext (judge env settings (contract_claim c) b o).locals
  unfolding judge try_body
  judge-Holding settings c b o o' ocr ext j fresh parses readable extracts same =
      let made =
        get_or_create_fresh env.runtime c.run_id (lit "document_id") (str c.document_id)
          ((lit "owner", str c.owner) ∷ (lit "tenant_id", str c.owner) ∷ []) b fresh in
      let registered : Registered env.runtime (machine_key c) (fresh_machine c) j.bridge =
        rw same (put_machine-Registered env.runtime (machine_key c) (fresh_machine c) b) in
      let (j', drives, holding) =
        drive-Holding c ext j (fresh_machine c) registered (fresh_machine_state c) in
      rw made (rw parses (rw readable (rw extracts (rw drives holding))))

  -- Without a model, a fresh run on a contract whose text can be read gets the verdict of the
  -- deterministic extractor: `pass` in the state `valid` with no reasons if no field is missing,
  -- else `fail` in the state `invalid` with a reason for each missing field.
  pub judge_deterministic :
      (settings : Settings) (c : Claim env) (b : Bridge env.runtime) (o o' : env.Outside)
      (ocr : OcrResult)
      → settings.together_api_key ≡ []
      → settings.extractor ≡ lit "deterministic"
      → IsFresh env.runtime (machine_key c) b
      → env.parse_document (env.blob_path c.blob_ref) settings.ocr_dpi o ≡ (ok ocr, o')
      → is_ok ocr ≡ true
      → Holding (extract env.python ocr) (judge env settings (contract_claim c) b o).locals
  judge_deterministic settings c b o o' ocr no_key plain fresh parses readable =
      judge-Holding settings c b o o' ocr (extract env.python ocr) (parsed c ocr b o') fresh parses
        readable (extraction_deterministic settings c ocr (parsed c ocr b o') no_key plain) refl

  -- Where a model is set, a run on a contract whose machine is new, whose text can be read and was
  -- classified by the model gets the verdict, the final state and the reasons that the missing
  -- fields of the model ask for, the model's fields being held to the core fields if the document's
  -- type is like a contract.
  pub judge-classified :
      (settings : Settings) (c : Claim env) (b : Bridge env.runtime) (o o' o'' : env.Outside)
      (ocr : OcrResult) (ext : Extraction)
      → settings.together_api_key ≢ []
      → IsFresh env.runtime (machine_key c) b
      → env.parse_document (env.blob_path c.blob_ref) settings.ocr_dpi o ≡ (ok ocr, o')
      → is_ok ocr ≡ true
      → env.classify_and_check_fields ocr.raw_text c.temperature o' ≡ (ok ext, o'')
      → Holding
          (classified env (contract_claim c) ocr ext)
          (judge env settings (contract_claim c) b o).locals
  judge-classified settings c b o o' o'' ocr ext key fresh parses readable classifies =
      judge-Holding settings c b o o' ocr (classified env (contract_claim c) ocr ext)
        (record (parsed c ocr b o') {
          outside = o'';
          locals = record (initial_locals env (contract_claim c)) {
            doc_text = ocr.raw_text;
            document_type = type_or env ext.document_type (lit "contract");
          };
        })
        fresh parses readable
        (extraction-classified settings c ocr ext (parsed c ocr b o') o'' key classifies) refl
