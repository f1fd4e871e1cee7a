-- ===== src/Tests/Wired.antt =====
-- The pipeline with its own collaborators, at a queued run and a spent budget.
use orca_validator.Prelude.{
  ℕ, ◌≡◌, ◌≢◌, refl, true, [], ◌∷◌, none, lit, ok, arith, get, strip, is_space,
}
use orca_validator.Ocr.Result.{is_ok}
use orca_validator.Ocr.Reader.{read_document}
use orca_validator.Ocr.Service.{parse_document}
use orca_validator.Orca.Persistence.{load}
use orca_validator.Orca.Bridge.Steps.{IsFresh}
use orca_validator.Llm.Classification.{not_json}
use orca_validator.Llm.Analysis.{no_json}
use orca_validator.Pipeline.Database.{find}
use orca_validator.Pipeline.Environment.{World}
use orca_validator.Pipeline.Validate.{claim_of, run_validation}
use orca_validator.Pipeline.Validate.Runs.{IsReady}
use orca_validator.Pipeline.Validate.Judged.{machine_key}
use orca_validator.Pipeline.Wired.{Platform, wired}
use orca_validator.Pipeline.Wired.Spent.{IsSpent, Aborted, run_validation_spent}
use orca_validator.Tests.Interpreter.{interpreter}
use orca_validator.Tests.Instances.{ascii, is_word, document, run, with_model, contract_text}
use orca_validator.Tests.Reading.{libraries}
use orca_validator.Tests.Model.{echo, limited, has_key, texts_only}

-- Every file is a plain text, and holds the contract.
abbrev platform : Platform
platform = record {
  runtime = interpreter;
  python = ascii;
  ai = echo;
  chat_settings = limited;
  json = texts_only;
  loads = λ content. no_json;
  parse_answer = λ content. not_json;
  is_word = is_word;
  libraries = record libraries { suffix = λ path. lit ".txt" };
  client = record {
    parser_url = [];
    basename = λ path. path;
    post = λ url name bytes. ok (record { was_ok = true; raw_text = []; pages = []; error = none });
  };
  files = λ o path. ok contract_text;
  Time = ℕ;
  utcnow = λ o. o;
  blob_path = λ path. path;
  mkstemp = λ o. (ok [], o);
  verify = λ path text o. (ok (record { exited_zero = true; stdout = []; stderr = [] }), o);
  unlink = λ path o. o;
}

abbrev world : World (wired platform)
world = record {
  documents = document ∷ [];
  runs = run ∷ [];
  results = [];
  bridge = record { machines = []; table = [] };
  outside = 120;
}

world-IsReady : IsReady (wired platform) (lit "r1") world run document
unfolding find
world-IsReady = record { has_run = refl; is_open = refl; has_document = refl }

world-IsFresh :
    IsFresh interpreter
      (machine_key (wired platform) (claim_of (wired platform) (lit "r1") run document))
      world.bridge
unfolding get load
world-IsFresh = record { unregistered = refl; unsaved = refl }

with_key : with_model.together_api_key ≢ []
with_key = λ e. ground (arith, e)

readable :
    is_ok (
      parse_document platform.libraries platform.client
        (platform.files 120)
        (platform.blob_path document.blob_ref)
        with_model.ocr_dpi)
    ≡ true
unfolding is_ok parse_document strip is_space read_document
readable = refl

spent : IsSpent echo limited 120 120 120
spent = record { key = has_key; limited = omega arith; reached = omega arith; reads = refl }

run_validation_spent_example :
    Aborted platform
      (lit "r1")
      120
      world
      (run_validation (wired platform) with_model (lit "r1") world)
run_validation_spent_example =
    run_validation_spent platform with_model (lit "r1") world run document 120 120 world-IsReady
      refl refl with_key world-IsFresh readable spent
