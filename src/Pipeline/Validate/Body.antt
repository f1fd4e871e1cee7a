-- ===== src/Pipeline/Validate/Body.antt =====
-- The `try` block of run_validation: from the blob to the machine's verdict.
use orca_validator.Prelude.{
  Bool, not, List, [], ◌∷◌, Option, none, some, Text, lit, Dict, get, length, if◌then◌else◌,
  Failure, message, Result, ok, err, Exec, pure, lift, ◌>>=◌, ◌>>◌, text_eq,
}
use orca_validator.Ocr.Result.{OcrResult, is_ok}
use orca_validator.Ocr.Extract.{
  Extraction, extract_as, is_contract_like, merge_core_contract_fields, absent,
}
use orca_validator.Orca.Context.{Context, Value, null, str, list}
use orca_validator.Orca.Machine.{Machine, extracted, evaluate, extraction_failed, state_name}
use orca_validator.Orca.Bridge.{Bridge, get_or_create, send}
use orca_validator.Orca.Verdict.{payload_of}
use orca_validator.Pipeline.Environment.{Environment, Settings, llm_enabled}

module _ (env : Environment) where
  -- What the first transaction reads before it commits.
  pub record Claim : Type 0 where
    pub run_id : Text
    pub doc_type : Text
    pub blob_ref : Text
    pub owner : Text
    pub document_id : Text
    pub temperature : env.Temperature

  -- The variables that outlive the `try` block.
  pub record Locals : Type 0 where
    pub verdict : Text
    pub final_state : Text
    pub reasons : List (Option Text)
    pub fields : Dict Bool
    pub doc_text : Text
    pub document_type : Text

  pub record Job : Type 0 where
    pub bridge : Bridge env.runtime
    pub outside : env.Outside
    pub locals : Locals

  abbrev pub on_bridge : {A : Type 0} → Exec (Bridge env.runtime) A → Exec Job A
  on_bridge m j = let (r, b) = m j.bridge in (r, record j { bridge = b })

  abbrev pub on_outside : {A : Type 0} → Exec env.Outside A → Exec Job A
  on_outside m j = let (r, o) = m j.outside in (r, record j { outside = o })

  abbrev pub set_locals : (Locals → Locals) → Exec Job (Unit {0})
  set_locals f j = (ok tt, record j { locals = f j.locals })

  -- The values before the `try` block.
  abbrev pub initial_locals : Claim → Locals
  initial_locals c = record {
    verdict = lit "error";
    final_state = lit "error";
    reasons = some (lit "unknown") ∷ [];
    fields = [];
    doc_text = [];
    document_type = c.doc_type;
  }

  -- The context that a run's machine starts with.
  abbrev pub start_context : Claim → Context
  start_context c =
      (lit "document_id", str c.document_id)
      ∷ (lit "owner", str c.owner)
      ∷ (lit "tenant_id", str c.owner)
      ∷ []

  -- `{"error": ocr.error}`
  abbrev pub error_payload : Option Text → Context
  error_payload none = (lit "error", null) ∷ []
  error_payload (some e) = (lit "error", str e) ∷ []

  -- A contract is held to the core fields, whatever the model picked.
  unfoldable pub hold_to_core : OcrResult → Extraction → Extraction
  hold_to_core ocr ext =
      let merged = merge_core_contract_fields env.python ext.fields ocr in
      record ext {
        fields = merged;
        missing_fields = absent merged;
        missing_count = length (absent merged);
      }

  -- `ext.get("document_type", doc_type)`
  abbrev pub type_or : Option Text → Text → Text
  type_or none doc_type = doc_type
  type_or (some t) doc_type = t

  -- The extraction of the model, held to the core fields if the document is like a contract.
  unfoldable pub classified : Claim → OcrResult → Extraction → Extraction
  unfolding hold_to_core
  classified c ocr ext =
      if is_contract_like env.python (type_or ext.document_type c.doc_type)
      then hold_to_core ocr ext
      else ext

  unfoldable pub extraction : Settings → Claim → OcrResult → Exec Job Extraction
  unfolding classified
  extraction settings c ocr =
      if llm_enabled settings
      then (do
        ext ← on_outside (env.classify_and_check_fields ocr.raw_text c.temperature)
        set_locals (λ l. record l { document_type = type_or ext.document_type c.doc_type })
        pure (classified c ocr ext))
      else lift (extract_as env.python c.doc_type settings.extractor ocr)

  -- `ctx.get("verdict") or ("error" if final_state == "error" else "fail")`; the actions write no
  -- verdict but a text.
  abbrev pub verdict_or : Option Value → Text → Text
  verdict_or (some (str (c ∷ t))) state = c ∷ t
  verdict_or _ state = if text_eq state (lit "error") then lit "error" else lit "fail"

  -- `ctx.get("reasons", [])`; the actions write no reasons but a list.
  abbrev pub reasons_in : Option Value → List (Option Text)
  reasons_in (some (list rs)) = rs
  reasons_in _ = []

  unfoldable pub conclude : Machine → Locals → Locals
  conclude m l = record l {
    final_state = state_name m.state;
    verdict = verdict_or (get (lit "verdict") m.context) (state_name m.state);
    reasons = reasons_in (get (lit "reasons") m.context);
  }

  abbrev pub machine_of : Bool × Machine → Machine
  machine_of r = r.1

  -- The machine is given the facts, asked for the verdict, and read.
  unfoldable pub drive : Claim → Extraction → Exec Job (Unit {0})
  unfolding conclude
  drive c ext = do
    set_locals (λ l. record l { fields = ext.fields })
    on_bridge (send env.runtime c.doc_type c.run_id extracted (payload_of ext))
    m ← on_bridge (send env.runtime c.doc_type c.run_id evaluate [])
    set_locals (conclude (machine_of m))

  -- The machine is told that there is no text, and read.
  unfoldable pub give_up : Claim → OcrResult → Exec Job (Unit {0})
  unfolding conclude
  give_up c ocr = do
    m ← on_bridge (send env.runtime c.doc_type c.run_id extraction_failed (error_payload ocr.error))
    set_locals (conclude (machine_of m))

  unfoldable pub try_body : Settings → Claim → Exec Job (Unit {0})
  unfolding extraction drive give_up
  try_body settings c = do
    on_bridge (get_or_create env.runtime c.doc_type c.run_id (start_context c))
    ocr ← on_outside (env.parse_document (env.blob_path c.blob_ref) settings.ocr_dpi)
    if not (is_ok ocr) then give_up c ocr else (do
      set_locals (λ l. record l { doc_text = ocr.raw_text })
      ext ← extraction settings c ocr
      drive c ext)

  -- `except Exception as e`: the variables keep what was assigned before the raise.
  abbrev pub failed_with : Failure → Locals → Locals
  failed_with e l = record l {
    verdict = lit "error";
    final_state = lit "error";
    reasons = some (message e) ∷ [];
  }

  abbrev pub settle : Result (Unit {0}) × Job → Job
  settle (ok u, j) = j
  settle (err e, j) = record j { locals = failed_with e j.locals }

  unfoldable pub judge : Settings → Claim → Bridge env.runtime → env.Outside → Job
  unfolding try_body
  judge settings c b o =
      settle (try_body settings c (record { bridge = b; outside = o; locals = initial_locals c }))
