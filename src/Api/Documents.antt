-- ===== src/Api/Documents.antt =====
-- backend/api/documents.py: submission, status, result and revision of documents.
pub mod Submission
pub mod Retrieval
pub mod Latest
pub mod Word
pub mod Completion
use orca_validator.Prelude.{
  ℕ, Bool, true, false, not, List, [], ◌∷◌, ◌++◌, Option, none, some, Text, lit, Dict, get,
  is_empty, length, leb, ◌&&◌, ◌||◌, text_eq, if◌then◌else◌,
}
use orca_validator.Export.Redline.{clean_revision}
use orca_validator.Orca.Bridge.{is_supported}
use orca_validator.Pipeline.Database.{
  Status, queued, AnalysisStatus, analysis_skipped, AnalysisEntry, no_analysis, FsmReport, Document,
  Run, ValidationResult, find,
}
use orca_validator.Pipeline.Queue.{Queue, enqueue}
use orca_validator.Api.Http.{Response, reply, refused, require_api_key}

-- Floats, as far as the clamp of the temperature compares them.
pub record Float : Type 1 where
  pub F : Type 0
  pub zero : F
  pub one : F
  -- `a < b`, which is false where an operand is not a number
  pub lt : F → F → Bool

-- `max(0.0, min(1.0, t))`: Python's `min` and `max` keep the first operand unless the second one
-- is strictly smaller, or strictly greater.
unfoldable pub clamp : (fl : Float) → fl.F → fl.F
clamp fl t =
    let low = if fl.lt t fl.one then t else fl.one in if fl.lt fl.zero low then low else fl.zero

-- The dictionary `MACHINE_IDS`.
abbrev pub machine_ids : Dict Text
machine_ids = (lit "contract", lit "contract_validation") ∷ []

-- What raises in a call of a submission to what is outside: the blob store, the database at the flush
-- or the commit, or Redis, before or after it has taken the run.
pub data Trouble : Type 0 where
  storage database redis_before redis_after : Trouble

abbrev pub storage_fails : Option Trouble → Bool
storage_fails (some storage) = true
storage_fails _ = false

abbrev pub database_fails : Option Trouble → Bool
database_fails (some database) = true
database_fails _ = false

-- `os.path.splitext(filename)[1].lower() or ".pdf"` is computed by Python: it is given with the
-- upload, as are the UUIDs and the time that the database chooses, and what raises outside, if
-- anything does.
pub record Upload (F Time : Type 0) : Type 0 where
  pub doc_type : Text
  pub temperature : F
  pub filename : Text
  pub suffix : Text
  pub bytes : List ℕ
  pub document_id : Text
  pub run_id : Text
  pub blob_uuid : Text
  pub now : Time
  pub trouble : Option Trouble

-- What the endpoints read and write: the tables, the blobs, VERIFIED_MACHINES, the Redis queue and
-- the background tasks of this process.
pub record Service (F Time Analysis : Type 0) : Type 0 where
  pub documents : List Document
  pub runs : List (Run F Time)
  pub results : List (ValidationResult Analysis)
  pub blobs : Dict (List ℕ)
  pub verified_machines : Dict Text
  pub queue : Queue
  pub background : List Text

pub record ApiSettings : Type 0 where
  pub api_key : Text
  pub use_redis_queue : Bool

pub record SubmitResponse : Type 0 where
  pub document_id : Text
  pub run_id : Text
  pub status : Status

-- `d.get(key, default)`
abbrev pub text_or : Option Text → Text → Text
text_or none default = default
text_or (some t) default = t

-- `a or b` of two texts
abbrev pub or_text : Text → Text → Text
or_text a b = if is_empty a then b else a

module _ (fl : Float) (Time Analysis : Type 0) where
  abbrev pub ServiceState : Type 0
  ServiceState = Service fl.F Time Analysis

  -- `LocalBlobStore.put` (backend/storage/blobs.py): the key of the new blob
  abbrev pub blob_key : Upload fl.F Time → Text
  blob_key u = u.blob_uuid ++ or_text u.suffix (lit ".pdf")

  abbrev pub new_document : Text → Upload fl.F Time → Document
  new_document subject u = record {
    id = u.document_id;
    owner = subject;
    doc_type = u.doc_type;
    filename = or_text u.filename (lit "upload.pdf");
    blob_ref = blob_key u;
    status = queued;
  }

  abbrev pub new_run : Dict Text → Upload fl.F Time → Text → Run fl.F Time
  new_run verified u machine_id = record {
    id = u.run_id;
    document_id = u.document_id;
    machine_id = machine_id;
    machine_version = lit "0.1.30";
    machine_hash = text_or (get (machine_id ++ lit ".orca.md") verified) (lit "unknown");
    temperature = clamp fl u.temperature;
    status = queued;
    error = none;
    queued_at = u.now;
    started_at = none;
    finished_at = none;
  }

  -- The widths of the text columns that the row is stored in (backend/models); a longer text makes
  -- PostgreSQL raise. The other texts of a new row are constants that fit.
  abbrev pub fits_document : Document → Bool
  fits_document d = leb (length d.filename) 512 && leb (length d.blob_ref) 1024

  abbrev pub fits_run : Run fl.F Time → Bool
  fits_run r = leb (length r.machine_hash) 128

  -- `enqueue(run.id)` or `background.add_task(run_validation, run.id)`, where nothing raises
  abbrev pub hand_over : ApiSettings → Text → ServiceState → ServiceState
  hand_over settings run_id s =
      if settings.use_redis_queue
      then record s { queue = enqueue run_id s.queue }
      else record s { background = s.background ++ run_id ∷ [] }

  -- What follows the commit. `enqueue` may raise, before or after the run is in the queue, and the
  -- rows stay; `add_task` only appends to a list.
  abbrev pub schedule :
      ApiSettings → Upload fl.F Time → ServiceState → Response SubmitResponse × ServiceState
  schedule settings u s =
      let handed = hand_over settings u.run_id s in
      let answer : SubmitResponse = record {
        document_id = u.document_id;
        run_id = u.run_id;
        status = queued;
      } in
      if settings.use_redis_queue
      then enqueued u.trouble answer s handed
      else (reply answer, handed)
    where
      enqueued :
          Option Trouble
          → SubmitResponse
          → ServiceState
          → ServiceState
          → Response SubmitResponse × ServiceState
      enqueued (some redis_before) answer s handed = (refused 500, s)
      enqueued (some redis_after) answer s handed = (refused 500, handed)
      enqueued _ answer s handed = (reply answer, handed)

  -- The body of `submit_document`. A raise is a 500: of the blob store, before anything is written; of
  -- the flush, of `MACHINE_IDS[doc_type]` (a KeyError) or of the commit, after the blob was written,
  -- and nothing is committed; of `enqueue`, after the commit.
  unfoldable pub submit :
      ApiSettings → Text → Upload fl.F Time → ServiceState → Response SubmitResponse × ServiceState
  submit settings subject u s =
      if not (is_supported u.doc_type)
      then (refused 400, s)
      else if is_empty u.bytes
      then (refused 400, s)
      else if storage_fails u.trouble
      then (refused 500, s)
      else (let stored = record s { blobs = (blob_key u, u.bytes) ∷ s.blobs } in
          if not (fits_document (new_document subject u))
          then (refused 500, stored)
          else elim (get u.doc_type machine_ids) [
            | none ↦ (refused 500, stored)
            | some machine_id ↦
                if database_fails u.trouble
                  || not (fits_run (new_run s.verified_machines u machine_id))
                then (refused 500, stored)
                else schedule settings u (record stored {
                  documents = s.documents ++ new_document subject u ∷ [];
                  runs = s.runs ++ new_run s.verified_machines u machine_id ∷ [];
                })
          ])

  -- `submit_document`, with the dependency that checks the key
  unfoldable pub submit_document :
      ApiSettings → Text → Upload fl.F Time → ServiceState → Response SubmitResponse × ServiceState
  unfolding submit require_api_key
  submit_document settings authorization u s =
      elim (require_api_key settings.api_key authorization) [
        | refused code ↦ (refused code, s)
        | reply subject ↦ submit settings subject u s
      ]
