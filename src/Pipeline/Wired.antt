-- ===== src/Pipeline/Wired.antt =====
-- The pipeline with its own collaborators: the reader and the parser service (backend/ocr,
-- backend/parser), the language-model layer (backend/llm) and the compiler of extracted machines
-- (backend/orca/document_fsm.py) in the places where backend/pipeline/validate.py imports them.
pub mod Spent
use orca_validator.Prelude.{ℕ, Bool, List, Text, Dict, ok, Exec}
use orca_validator.Ocr.Extract.{Python}
use orca_validator.Ocr.Formats.{Libraries, Files}
use orca_validator.Ocr.Service.{Client, parse_document}
use orca_validator.Orca.Runtime.{Runtime}
use orca_validator.Orca.Compile.{Cli, CliRun, verify_and_compile}
use orca_validator.Llm.Chat.{Together, ChatSettings}
use orca_validator.Llm.Classification.{Parsed, classify_and_check_fields}
use orca_validator.Llm.Analysis.{Json, Loaded, missing_clauses, analyze_contract}
use orca_validator.Llm.Machine.{extract_state_machine}
use orca_validator.Llm.Revision.{revise_contract}
use orca_validator.Pipeline.Environment.{Environment}

-- What is not this repository's own: the services, the libraries, the file system and the clock, on
-- one state of everything outside.
pub record Platform : Type 1 where
  pub runtime : Runtime
  pub python : Python
  pub ai : Together
  pub chat_settings : ChatSettings
  pub json : Json
  pub loads : Text → Loaded json.Value
  pub parse_answer : Text → Parsed
  pub is_word : ℕ → Bool
  pub libraries : Libraries
  pub client : Client
  pub files : ai.redis.Outside → Files
  pub Time : Type 0
  pub utcnow : ai.redis.Outside → Time
  pub blob_path : Text → Text
  pub mkstemp : Exec ai.redis.Outside Text
  pub verify : Text → Text → Exec ai.redis.Outside CliRun
  pub unlink : Text → ai.redis.Outside → ai.redis.Outside

module _ (p : Platform) where
  abbrev pub cli : Cli
  cli = record {
    Outside = p.ai.redis.Outside;
    mkstemp = p.mkstemp;
    verify = p.verify;
    unlink = p.unlink;
  }

  -- The names that backend/pipeline/validate.py imports.
  abbrev pub wired : Environment
  wired = record {
    runtime = p.runtime;
    python = p.python;
    Temperature = p.ai.F;
    Time = p.Time;
    Analysis = Dict p.json.Value;
    Outside = p.ai.redis.Outside;
    utcnow = p.utcnow;
    blob_path = p.blob_path;
    parse_document =
        λ path dpi o. (ok (parse_document p.libraries p.client (p.files o) path dpi), o);
    classify_and_check_fields = classify_and_check_fields p.ai p.chat_settings p.parse_answer;
    analyze_contract = analyze_contract p.json p.ai p.chat_settings p.loads;
    revise_contract = λ text analysis.
        revise_contract p.ai p.chat_settings text (missing_clauses p.json analysis);
    extract_state_machine = extract_state_machine p.ai p.chat_settings p.is_word;
    verify_and_compile = verify_and_compile cli;
  }
