-- ===== src/Tests/Service.antt =====
-- The theorems of the queue, the worker and the endpoints.
use orca_validator.Prelude.{
  none, ℕ, ◌+◌, ◌≤◌, ◌≡◌, refl, true, false, [], ◌∷◌, Text, lit, length, ltb, arith,
}
use orca_validator.Pipeline.Queue.{dequeue}
use orca_validator.Pipeline.Worker.{
  Worker, init, acquiring, dequeuing, starting, Reach, here, next, acquire, take, start,
}
use orca_validator.Pipeline.Worker.Bounded.{held, inflight-le-concurrency, tally, count}
use orca_validator.Pipeline.Worker.Drains.{Reach-drained}
use orca_validator.Api.Http.{reply, is_ascii}
use orca_validator.Api.Documents.{
  Float, Upload, ApiSettings, Service, submit_document, new_document, new_run,
}
use orca_validator.Api.Documents.Submission.{is_authorized, queued_response}
use orca_validator.Api.Documents.Retrieval.{
  get_result, download_revised_md, download_of, download_revised_md_lem,
}
use orca_validator.Pipeline.Database.{find}
use orca_validator.Pipeline.Environment.{World}
use orca_validator.Pipeline.Validate.{run_validation}
use orca_validator.Pipeline.Validate.Completion.{Completed}
use orca_validator.Api.Documents.Completion.{floats, world_of, IsNew, submit_document-Completed}
use orca_validator.Tests.Instances.{document, run, env, without_model}

-- A worker with two slots that has taken one run of a queue of two.
abbrev two_runs : Worker
two_runs = init 2 (lit "b" ∷ lit "a" ∷ [])

abbrev one_started : Worker
one_started = record {
  free = 1;
  phase = acquiring;
  inflight = lit "a" ∷ [];
  queue = lit "b" ∷ [];
  ended = [];
}

one_started-Reach : Reach two_runs one_started
unfolding dequeue
one_started-Reach =
    next
      (next (next here (acquire two_runs refl refl))
        (take (record two_runs { free = 1; phase = dequeuing }) (lit "a") refl refl))
      (start (record two_runs { free = 1; phase = starting (lit "a"); queue = lit "b" ∷ [] })
        (lit "a") refl)

inflight-le-concurrency_example :
    (one_started.free + held one_started.phase + length one_started.inflight ≡ 2)
    × (length one_started.inflight ≤ 2)
inflight-le-concurrency_example =
    inflight-le-concurrency 2 (lit "b" ∷ lit "a" ∷ []) one_started one_started-Reach

Reach-drained_example :
    (v : Worker) × Reach one_started v
    × (v.queue ≡ [])
    × (v.inflight ≡ [])
    × (v.phase ≡ acquiring)
    × ((k : Text) → tally k one_started ≤ count k v.ended)
Reach-drained_example =
    Reach-drained 2 (lit "b" ∷ lit "a" ∷ []) one_started (omega arith) one_started-Reach

-- Numbers in place of the floats.
abbrev pub numbers : Float
numbers = record { F = ℕ; zero = 0; one = 1; lt = ltb }

ltb_asym : (a b : ℕ) → ltb a b ≡ true → ltb b a ≡ false
ltb_asym a b h = ground (arith, h)

ltb_chain : (a b c : ℕ) → ltb a b ≡ false → ltb b c ≡ false → ltb a c ≡ false
ltb_chain a b c h k = ground (arith, h, k)

abbrev pub settings : ApiSettings
settings = record { api_key = lit "k"; use_redis_queue = false }

abbrev pub upload : Upload ℕ ℕ
upload = record {
  doc_type = lit "contract";
  temperature = 0;
  filename = lit "lease.pdf";
  suffix = lit ".pdf";
  bytes = lit "%PDF";
  document_id = lit "d1";
  run_id = lit "r1";
  blob_uuid = lit "b1";
  now = 1;
  trouble = none;
}

abbrev pub empty_service : Service ℕ ℕ Text
empty_service = record {
  documents = [];
  runs = [];
  results = [];
  blobs = [];
  verified_machines = [];
  queue = [];
  background = [];
}

ascii_key : is_ascii settings.api_key ≡ true
unfolding is_ascii
ascii_key = refl

abbrev pub one_run : Service ℕ ℕ Text
one_run = record empty_service { documents = document ∷ []; runs = run ∷ [] }

download_revised_md_lem_example :
    download_revised_md ltb (lit "d1") one_run one_run
    ≡ download_of (get_result ltb (lit "d1") one_run one_run)
download_revised_md_lem_example = download_revised_md_lem ltb (lit "d1") one_run one_run

pub upload-IsNew : IsNew env 0 1 ltb upload empty_service
unfolding find
upload-IsNew = record { no_run = refl; no_document = refl; no_result = refl }

authorized : is_authorized (floats env 0 1 ltb) ℕ Text settings (lit "Bearer k") ≡ true
authorized = refl

-- The world after the submission.
abbrev submitted : World env
submitted =
    world_of env 0 1 ltb
      (submit_document (floats env 0 1 ltb) ℕ Text settings (lit "Bearer k") upload empty_service).1
      (record { machines = []; table = [] }) 7

submit_document-Completed_example :
    ((submit_document (floats env 0 1 ltb) ℕ Text settings (lit "Bearer k") upload empty_service).0
      ≡ reply (queued_response (floats env 0 1 ltb) ℕ Text settings upload))
    × Completed env without_model
        (lit "r1")
        submitted
        (new_run (floats env 0 1 ltb) ℕ Text [] upload (lit "contract_validation"))
        (new_document (floats env 0 1 ltb) ℕ Text (lit "api-key-subject") upload)
        (run_validation env without_model (lit "r1") submitted)
unfolding orca_validator.Prelude.get
submit_document-Completed_example =
    submit_document-Completed env 0 1 ltb settings without_model (lit "Bearer k") upload
      empty_service (record { machines = []; table = [] }) 7 ascii_key authorized refl refl refl
      refl upload-IsNew
