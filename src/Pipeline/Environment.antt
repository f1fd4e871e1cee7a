-- ===== src/Pipeline/Environment.antt =====
-- What the pipeline of backend/pipeline/validate.py calls: the machine's runtime, the parser
-- (backend/ocr/parser_client.py), the language model (backend/llm/together.py) and the compiler of
-- extracted machines (backend/orca/document_fsm.py), and the state that all of it works on.
use orca_validator.Prelude.{ℕ, Bool, List, Text, not, is_empty, Exec}
use orca_validator.Ocr.Result.{OcrResult}
use orca_validator.Ocr.Extract.{Extraction, Python}
use orca_validator.Orca.Runtime.{Runtime}
use orca_validator.Orca.Bridge.{Bridge}
use orca_validator.Pipeline.Database.{Document, Run, ValidationResult, FsmReport}

-- The settings that the pipeline reads (backend/app/config.py).
pub record Settings : Type 0 where
  pub ocr_dpi : ℕ
  pub extractor : Text
  pub together_api_key : Text

-- The property `llm_enabled`.
abbrev pub llm_enabled : Settings → Bool
llm_enabled s = not (is_empty s.together_api_key)

-- The pipeline's collaborators. Each may raise, and each changes what is `Outside`: the file
-- system, the network, the token budget.
pub record Environment : Type 1 where
  pub runtime : Runtime
  pub python : Python
  pub Temperature : Type 0
  pub Time : Type 0
  pub Analysis : Type 0
  pub Outside : Type 0
  pub utcnow : Outside → Time
  pub blob_path : Text → Text
  pub parse_document : Text → ℕ → Exec Outside OcrResult
  pub classify_and_check_fields : Text → Temperature → Exec Outside Extraction
  pub analyze_contract : Text → Temperature → Exec Outside Analysis
  pub revise_contract : Text → Analysis → Temperature → Exec Outside Text
  pub extract_state_machine : Text → Temperature → Exec Outside Text
  pub verify_and_compile : Text → Exec Outside FsmReport

module _ (env : Environment) where
  abbrev pub RunRow : Type 0
  RunRow = Run env.Temperature env.Time

  abbrev pub ResultRow : Type 0
  ResultRow = ValidationResult env.Analysis

  pub record World : Type 0 where
    pub documents : List Document
    pub runs : List RunRow
    pub results : List ResultRow
    pub bridge : Bridge env.runtime
    pub outside : env.Outside
