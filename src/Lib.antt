-- ===== src/Lib.antt =====
-- orca-validator: uploaded documents are read, checked for the fields that a contract needs, and
-- given a verdict by a formally verified state machine; a language model adds an assessment and a
-- redline. This library models the back end and proves what its parts promise.
--
-- The parts, and the files that model them:
--   - Pipeline/Validate (backend/pipeline/validate.py): `run_validation`. `claim` is the first
--     transaction, `judge` the `try` block with its `except` (Validate/Body), `assess` and
--     `describe` the two best-effort blocks behind it (Validate/Assess), `finish` the last
--     transaction. Their state is a `World`: the rows, the bridge, and what is outside.
--     Validate/Runs, Judged, Completion, Contract, Labels, Unread and Unclassified hold the proofs.
--   - Pipeline/Environment: what the pipeline calls, as a record of operations that may raise: the
--     parser (backend/ocr/parser_client.py), the model (backend/llm/together.py), and the compiler
--     of extracted machines (backend/orca/document_fsm.py). Pipeline/Wired puts the models of these
--     parts in the places where the pipeline imports them. Pipeline/Database: the rows
--     (backend/models/__init__.py).
--   - Pipeline/Queue (backend/queue.py) and Pipeline/Worker (backend/pipeline/worker.py): the Redis
--     list, and the loop with its semaphore and tasks as a step relation.
--   - Orca/Machine (machines/contract_validation.orca.md), Orca/Actions
--     (backend/orca/actions/contract_actions.py) and Orca/Context: the table of the machine, its
--     actions, and their dictionaries. Orca/Runtime: what is used of the package
--     orca_runtime_python, as a record of operations and laws. Orca/Bridge and Orca/Persistence
--     (backend/orca/bridge.py, registry.py, persistence.py): the machines of this process and the
--     table of snapshots. Orca/Verdict: the two steps from an extraction to a verdict. Orca/Gate
--     (backend/orca/verification.py, backend/app/main.py): the boot gate, and the creation of the
--     tables that follows it.
--   - backend/orca/document_fsm.py: Orca/Fsm reads the states and transitions of an extracted
--     machine from its text (`_parse_machine`), Orca/Hoisting writes the copy that the verifier is
--     given (`_normalize_for_verification`), Orca/Diagram draws it (`_build_mermaid`), and
--     Orca/Compile puts these together (`verify_and_compile`).
--   - Ocr/Reader (backend/ocr/reader.py): a file read into text by its format, page by page;
--     Ocr/Formats: the libraries and the files that it reads with.
--     Ocr/Service (backend/ocr/parser_client.py, backend/parser/app.py): the same in the isolated
--     service, and the client that calls it.
--   - Ocr/Extract and Ocr/Regex (backend/ocr/extract.py), Ocr/Result (backend/ocr/result.py): the
--     deterministic extractor, its patterns, and the merge with the model's fields.
--   - Llm/Chunks, Chat, Analysis, Classification, Machine and Revision (backend/llm/together.py) and
--     Llm/Budget (backend/llm/budget.py): the split of a long text, a call of the endpoint, the
--     analysis, the fields that a kind of document needs, the repairs of an extracted machine's text,
--     the redline of a whole document, and the daily token budget; Llm/Prompts has the long prompts.
--   - Export/Redline (backend/export/redline.py): a redline resolved into a clean text. Export/Docx
--     (backend/export/docx.py): a text as the blocks of a Word document.
--   - Api/Http (backend/deps.py) and Api/Documents (backend/api/documents.py, backend/schemas.py,
--     backend/storage/blobs.py): the key check, submission, status, result and revision; the
--     download as a Word document is in Documents/Word, and Documents/Completion follows a
--     submission to the end of its run. What raises outside during a submission comes with the upload
--     (`Trouble`); the endpoints that read take what each of their two SELECTs finds. Api/Visits
--     (backend/api/visits.py): the log of visits and its page. Api/Machines
--     (backend/api/machines.py, backend/orca/diagram.py): the verified machines and their diagrams.
--   - System: the service as a whole. Its steps are the requests, the takes from the queue, and
--     the transactions of the tasks, in any order and with tasks that die; each is taken from
--     the models of `submit_document`, `dequeue`, `claim` and `finish`. System/Life is the life
--     of one run, what each step does to it is in System/Steps (by Rows and Submitted), and
--     Fits, Runs, Idle, Final, Distinct, Unique, Paired, Documents, Shown, Begun and Progress
--     hold the proofs. System/Work is the part of the steps that the tasks make, each with what the
--     pipeline makes of its run.
--   - App: backend/app/config.py (Config, and Defaults on what a service without a key for the
--     model does), backend/app/database.py (Database), backend/api/health.py (Health), the
--     endpoints that backend/app/main.py includes, with their dependency on the key (Routes),
--     and the revisions of the schema (Migrations; migrations/env.py and migrations/versions),
--     with the tables that backend/app/main.py creates (Migrations/Boot).
--   - Prelude: texts as lists of code points, dictionaries in insertion order, and calls that may
--     raise and keep what was written before. Tests: a runtime that reads the machine's table, an
--     environment, and the theorems at concrete inputs.
--
-- A call that may raise is `Exec S A = S → Result A × S`. A transaction that raises is modelled with
-- the rows as they were before it. `clean_revision` runs each substitution on fuel, the length of the
-- text: every round consumes a character. `split_into_chunks` runs its loop on one round more than
-- the text is long: every round of a positive chunk size consumes a character. The split of a line
-- at its bold parts runs on the length of the line in the same way.
--
-- Parameters: the runtime of the machines, the Unicode tables and `repr` of Python, its JSON
-- parser, the libraries that open PDF, Word and image files and recognise text, the file system,
-- the HTTP post to the parser service, Redis, the chat endpoint, the verifier's command, the hash
-- of a file, what an operation of a migration does to a schema (with its documented laws), the
-- order of the database's rows, the clock, and floats as far as they are compared. Times and
-- identifiers that the database chooses come with the request.
--
-- Not modelled: the bytes that python-docx saves; what an operation does to a schema beyond its laws,
-- and the offline mode of the migrations; the engine's pool and sessions; reading the environment into
-- settings; the descriptions of machines that no code runs, and the web client.
pub mod Prelude
pub mod Export
pub mod Llm
pub mod Ocr
pub mod Orca
pub mod Pipeline
pub mod Api
pub mod System
pub mod App
pub mod Tests
