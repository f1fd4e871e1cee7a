-- ===== src/Tests/Instances.antt =====
-- An environment, and a world with one queued run.
use orca_validator.Prelude.{
  ℕ, Bool, true, ◌&&◌, ◌||◌, leb, ◌==◌, [], ◌∷◌, none, some, Text, lit, ok, if◌then◌else◌, map, ◌+◌,
}
use orca_validator.Ocr.Result.{OcrResult, success}
use orca_validator.Ocr.Extract.{Python, Extraction}
use orca_validator.Pipeline.Database.{Document, queued, FsmReport}
use orca_validator.Pipeline.Environment.{Environment, Settings, World, RunRow}
use orca_validator.Tests.Interpreter.{interpreter}

-- ASCII's letters, digits and `_`, and its lower case.
abbrev pub is_word : ℕ → Bool
is_word c =
    (leb b'a' c && leb c b'z')
    || (leb b'A' c && leb c b'Z')
    || (leb b'0' c && leb c b'9')
    || c == b'_'

abbrev pub lower_char : ℕ → ℕ
lower_char c = if leb b'A' c && leb c b'Z' then c + 32 else c

abbrev pub ascii : Python
ascii = record { lower = λ t. map lower_char t; is_word = is_word; repr = λ t. t }

-- A contract without a term and without a governing law.
abbrev pub contract_text : Text
contract_text = lit "Lease dated as of May 1, between A and B. Signed by A."

abbrev pub contract_ocr : OcrResult
contract_ocr = success contract_text []

-- A model that names two fields and drops the other three.
abbrev pub model_fields : Extraction
model_fields = record {
  document_type = some (lit "Lease");
  fields = (lit "parties", true) ∷ (lit "rent", true) ∷ [];
  missing_fields = [];
  missing_count = 0;
  presence = none;
}

abbrev pub report : FsmReport
report = record { orca_md = none; mermaid = none; verified = true; report = lit "VERIFIED" }

-- The environment counts its calls.
abbrev pub env : Environment
env = record {
  runtime = interpreter;
  python = ascii;
  Temperature = ℕ;
  Time = ℕ;
  Analysis = Text;
  Outside = ℕ;
  utcnow = λ o. o;
  blob_path = λ t. t;
  parse_document = λ path dpi o. (ok contract_ocr, o + 1);
  classify_and_check_fields = λ text t o. (ok model_fields, o + 1);
  analyze_contract = λ text t o. (ok (lit "fair"), o + 1);
  revise_contract = λ text a t o. (ok text, o + 1);
  extract_state_machine = λ text t o. (ok (lit "# machine M"), o + 1);
  verify_and_compile = λ orca_md o. (ok report, o + 1);
}

abbrev pub without_model : Settings
without_model = record { ocr_dpi = 200; extractor = lit "deterministic"; together_api_key = [] }

abbrev pub with_model : Settings
with_model = record { ocr_dpi = 200; extractor = lit "deterministic"; together_api_key = lit "k" }

abbrev pub document : Document
document = record {
  id = lit "d1";
  owner = lit "api-key-subject";
  doc_type = lit "contract";
  filename = lit "lease.pdf";
  blob_ref = lit "b1.pdf";
  status = queued;
}

abbrev pub run : RunRow env
run = record {
  id = lit "r1";
  document_id = lit "d1";
  machine_id = lit "contract_validation";
  machine_version = lit "0.1.30";
  machine_hash = lit "unknown";
  temperature = 0;
  status = queued;
  error = none;
  queued_at = 1;
  started_at = none;
  finished_at = none;
}

abbrev pub world : World env
world = record {
  documents = document ∷ [];
  runs = run ∷ [];
  results = [];
  bridge = record { machines = []; table = [] };
  outside = 7;
}
