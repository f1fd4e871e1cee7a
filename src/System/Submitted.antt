-- ===== src/System/Submitted.antt =====
-- What a request to submit a document does to the tables, the queue and the background tasks.
use orca_validator.Prelude.{
  ℕ, ◌++◌, ◌⊎◌, ◌≡◌, refl, if◌then◌else◌, Bool, true, false, Option, none, some, Text, lit, text_eq,
  is_empty, inl, inr, Bool-cases,
}
use orca_validator.Api.Http.{
  Response, reply, refused, require_api_key, subject_or_refuse, compare_digest,
}
use orca_validator.Api.Documents.{
  Float, Upload, ApiSettings, ServiceState, submit, submit_document, SubmitResponse, Trouble,
  storage, database, redis_before, redis_after,
}
use orca_validator.Api.Documents.Submission.{
  accepted, stored, with_blob, is_storable, outcome, submit-outcome, queued_response,
}

subject_or_refuse-cases :
    (digest : Option Bool)
    → ((code : ℕ) × (subject_or_refuse digest ≡ refused code))
      ⊎ (subject_or_refuse digest ≡ reply (lit "api-key-subject"))
subject_or_refuse-cases none = inl (500, refl)
subject_or_refuse-cases (some true) = inr refl
subject_or_refuse-cases (some false) = inl (401, refl)

-- Whoever is let in has the one subject.
require_api_key-cases :
    (api_key authorization : Text)
    → ((code : ℕ) × (require_api_key api_key authorization ≡ refused code))
      ⊎ (require_api_key api_key authorization ≡ reply (lit "api-key-subject"))
unfolding require_api_key
require_api_key-cases api_key authorization = elim (Bool-cases (is_empty authorization)) [
  | inl e ↦ rw e (inl (401, refl))
  | inr e ↦ rw e (subject_or_refuse-cases (compare_digest authorization (lit "Bearer " ++ api_key)))
]

module _ (fl : Float) (Time Analysis : Type 0) where
  -- A refused request leaves at most a blob.
  pub record Untouched (s s' : ServiceState fl Time Analysis) : Type 0 where
    pub documents : s'.documents ≡ s.documents
    pub runs : s'.runs ≡ s.runs
    pub results : s'.results ≡ s.results
    pub queue : s'.queue ≡ s.queue
    pub background : s'.background ≡ s.background

  unchanged : (s : ServiceState fl Time Analysis) → Untouched s s
  unchanged s = record {
    documents = refl;
    runs = refl;
    results = refl;
    queue = refl;
    background = refl;
  }

  module _ (settings : ApiSettings) where
    -- What a request leaves: it was refused, it was stored and scheduled, or it was stored only.
    abbrev pub Left :
        Upload fl.F Time → ServiceState fl Time Analysis → ServiceState fl Time Analysis → Type 0
    Left u s t =
        Untouched s t
        ⊎ (t ≡ accepted fl Time Analysis settings u s)
        ⊎ (t ≡ stored fl Time Analysis settings u s)

    blob_only :
        (u : Upload fl.F Time) (s : ServiceState fl Time Analysis)
        → Untouched s (with_blob fl Time Analysis settings u s)
    blob_only u s = record {
      documents = refl;
      runs = refl;
      results = refl;
      queue = refl;
      background = refl;
    }

    -- The same of a whole outcome.
    abbrev Leaves :
        Upload fl.F Time
        → ServiceState fl Time Analysis
        → Response SubmitResponse × ServiceState fl Time Analysis
        → Type 0
    Leaves u s x = Left u s x.1

    unscheduled :
        (b : Bool) (u : Upload fl.F Time) (s t : ServiceState fl Time Analysis)
        → Left u s t
        → (code : ℕ)
        → Leaves u s (
            if is_storable fl Time Analysis settings u s
            then if b then (refused code, t) else (
              reply (queued_response fl Time Analysis settings u),
              accepted fl Time Analysis settings u s,
            )
            else (refused code, with_blob fl Time Analysis settings u s))
    unscheduled b u s t left code = elim (Bool-cases (is_storable fl Time Analysis settings u s)) [
      | inr e ↦ rw e (inl (blob_only u s))
      | inl e ↦ elim (Bool-cases b) [
        | inl e' ↦ rw (e, e') left
        | inr e' ↦ rw (e, e') (inr (inl refl))
      ]
    ]

    outcome-cases :
        (o : Option Trouble) (u : Upload fl.F Time) (s : ServiceState fl Time Analysis)
        → Left u s (outcome fl Time Analysis settings o u s).1
    outcome-cases none u s = unscheduled false u s s (inl (unchanged s)) 500
    outcome-cases (some storage) u s = inl (unchanged s)
    outcome-cases (some database) u s = inl (blob_only u s)
    outcome-cases (some redis_before) u s =
        unscheduled settings.use_redis_queue u s _ (inr (inr refl)) 500
    outcome-cases (some redis_after) u s =
        unscheduled settings.use_redis_queue u s _ (inr (inl refl)) 500

    submit-cases :
        (u : Upload fl.F Time) (s : ServiceState fl Time Analysis)
        → Left u s (submit fl Time Analysis settings (lit "api-key-subject") u s).1
    submit-cases u s =
        rw (submit-outcome fl Time Analysis settings u s)
          (elim (Bool-cases (text_eq (lit "contract") u.doc_type)) [
            | inl e ↦ elim (Bool-cases (is_empty u.bytes)) [
              | inl e' ↦ rw (e, e') (inl (unchanged s))
              | inr e' ↦ rw (e, e') (outcome-cases u.trouble u s)
            ]
            | inr e ↦ rw e (inl (unchanged s))
          ])

    pub submit_document-cases :
        (authorization : Text) (u : Upload fl.F Time) (s : ServiceState fl Time Analysis)
        → Left u s (submit_document fl Time Analysis settings authorization u s).1
    unfolding submit_document
    submit_document-cases authorization u s =
        elim (require_api_key-cases settings.api_key authorization) [
          | inl (code, e) ↦ rw (e, submit_document) (inl (unchanged s))
          | inr e ↦ rw (e, submit_document) (submit-cases u s)
        ]
