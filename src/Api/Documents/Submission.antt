-- ===== src/Api/Documents/Submission.antt =====
-- What a submission leaves behind.
use orca_validator.Prelude.{
  ℕ, ◌≡◌, refl, ◌∙◌, Option, none, some, length, leb, ◌&&◌, Bool, true, false, [], ◌∷◌, ◌++◌, arith,
  inl, inr, Text, lit, is_empty, text_eq, text_eq_iff, if◌then◌else◌, Bool-cases, get,
}
use orca_validator.Orca.Bridge.{is_supported}
use orca_validator.Pipeline.Database.{queued}
use orca_validator.Api.Http.{Response, reply, refused, require_api_key, is_ascii, compare_digest}
use orca_validator.Api.Documents.{
  Float, clamp, Upload, ApiSettings, SubmitResponse, ServiceState, submit, submit_document,
  hand_over, Trouble, storage, database, redis_before, redis_after, or_text, text_or, new_document,
  new_run, blob_key,
}

module _ (fl : Float) (one_pos : fl.lt fl.zero fl.one ≡ true)
    (asym : (a b : fl.F) → fl.lt a b ≡ true → fl.lt b a ≡ false) where
  lt_irrefl : (a : fl.F) → fl.lt a a ≡ false
  lt_irrefl a = elim (Bool-cases (fl.lt a a)) [ inl e ↦ asym a a e | inr e ↦ e ]

  -- Where the comparison is asymmetric and 0 is below 1: the stored temperature is neither below 0
  -- nor above 1, whatever was sent, also where what was sent compares with nothing; it is what was
  -- sent if that lies strictly between them, 1 if that is not below 1, and else 0.
  pub clamp_bounds :
      (t : fl.F)
      → (fl.lt (clamp fl t) fl.zero ≡ false)
        × (fl.lt fl.one (clamp fl t) ≡ false)
        × (clamp fl t
            ≡ (if fl.lt t fl.one then (if fl.lt fl.zero t then t else fl.zero) else fl.one))
  unfolding clamp
  clamp_bounds t = ground (
    arith,
    one_pos,
    asym t fl.one,
    asym fl.zero t,
    asym fl.zero fl.one,
    lt_irrefl fl.zero,
    lt_irrefl fl.one,
  )

is_supported-contract : (d : Text) → is_supported d ≡ true → lit "contract" ≡ d
unfolding is_supported
is_supported-contract d h = ground (arith, text_eq_iff (lit "contract") d)

module _ (fl : Float) (Time Analysis : Type 0) (settings : ApiSettings) where
  -- The caller's header carries the key.
  abbrev pub is_authorized : Text → Bool
  is_authorized authorization = text_eq authorization (lit "Bearer " ++ settings.api_key)

  -- The code for a caller without the key.
  abbrev pub unauthorized_code : Text → ℕ
  unauthorized_code authorization = if is_ascii authorization then 401 else 500

  -- The state with the blob of a submission, and with its rows.
  abbrev pub with_blob :
      Upload fl.F Time → ServiceState fl Time Analysis → ServiceState fl Time Analysis
  with_blob u s = record s { blobs = (blob_key fl Time Analysis u, u.bytes) ∷ s.blobs }

  abbrev pub stored :
      Upload fl.F Time → ServiceState fl Time Analysis → ServiceState fl Time Analysis
  stored u s = record s {
    blobs = (blob_key fl Time Analysis u, u.bytes) ∷ s.blobs;
    documents = s.documents ++ new_document fl Time Analysis (lit "api-key-subject") u ∷ [];
    runs =
        s.runs ++ new_run fl Time Analysis s.verified_machines u (lit "contract_validation") ∷ [];
  }

  -- The state after a submission was accepted.
  abbrev pub accepted :
      Upload fl.F Time → ServiceState fl Time Analysis → ServiceState fl Time Analysis
  accepted u s = hand_over fl Time Analysis settings u.run_id (stored u s)

  -- The name, the reference and the hash are not longer than their columns.
  abbrev pub is_storable : Upload fl.F Time → ServiceState fl Time Analysis → Bool
  is_storable u s =
      leb (length (or_text u.filename (lit "upload.pdf"))) 512
      && (leb (length (blob_key fl Time Analysis u)) 1024
          && leb
              (length (
                text_or (get (lit "contract_validation.orca.md") s.verified_machines)
                  (lit "unknown")))
              128)

  abbrev pub queued_response : Upload fl.F Time → SubmitResponse
  queued_response u = record { document_id = u.document_id; run_id = u.run_id; status = queued }

  -- The outcome for a contract that is not empty, by what raises outside.
  abbrev pub outcome :
      Option Trouble
      → Upload fl.F Time
      → ServiceState fl Time Analysis
      → Response SubmitResponse × ServiceState fl Time Analysis
  outcome (some storage) u s = (refused 500, s)
  outcome (some database) u s = (refused 500, with_blob u s)
  outcome (some redis_before) u s =
      if is_storable u s
      then if settings.use_redis_queue
        then (refused 500, stored u s)
        else (reply (queued_response u), accepted u s)
      else (refused 500, with_blob u s)
  outcome (some redis_after) u s =
      if is_storable u s
      then if settings.use_redis_queue
        then (refused 500, accepted u s)
        else (reply (queued_response u), accepted u s)
      else (refused 500, with_blob u s)
  outcome none u s =
      if is_storable u s
      then (reply (queued_response u), accepted u s)
      else (refused 500, with_blob u s)

  submit-contract :
      (o : Option Trouble) (u : Upload fl.F Time) (s : ServiceState fl Time Analysis)
      → u.trouble ≡ o
      → text_eq (lit "contract") u.doc_type ≡ true
      → is_empty u.bytes ≡ false
      → submit fl Time Analysis settings (lit "api-key-subject") u s ≡ outcome o u s
  unfolding submit is_supported get
  submit-contract none u s e h k = rw (e, h, k) (ground arith)
  submit-contract (some storage) u s e h k = rw (e, h, k) (ground arith)
  submit-contract (some database) u s e h k = rw (e, h, k) (ground arith)
  submit-contract (some redis_before) u s e h k = rw (e, h, k) (ground arith)
  submit-contract (some redis_after) u s e h k = rw (e, h, k) (ground arith)

  pub submit-outcome :
      (u : Upload fl.F Time) (s : ServiceState fl Time Analysis)
      → submit fl Time Analysis settings (lit "api-key-subject") u s ≡ (
          if text_eq (lit "contract") u.doc_type
          then if is_empty u.bytes then (refused 400, s) else outcome u.trouble u s
          else (refused 400, s))
  unfolding submit is_supported get
  submit-outcome u s = elim (Bool-cases (text_eq (lit "contract") u.doc_type)) [
    | inr other ↦ rw (other, submit) refl
    | inl contract ↦ elim (Bool-cases (is_empty u.bytes)) [
      | inl none_left ↦ rw (contract, none_left, submit) refl
      | inr filled ↦ submit-contract u.trouble u s refl contract filled ∙ rw (contract, filled) refl
    ]
  ]

  pub submit_document_lem :
      is_ascii settings.api_key ≡ true
      → (authorization : Text) (u : Upload fl.F Time) (s : ServiceState fl Time Analysis)
      → submit_document fl Time Analysis settings authorization u s ≡ (
          if is_authorized authorization
          then if text_eq (lit "contract") u.doc_type
            then if is_empty u.bytes then (refused 400, s) else outcome u.trouble u s
            else (refused 400, s)
          else (refused (unauthorized_code authorization), s))
  unfolding submit_document require_api_key compare_digest is_ascii
  submit_document_lem ascii authorization u s =
      let body = submit-outcome u s in
      ground (arith, body, text_eq_iff authorization (lit "Bearer " ++ settings.api_key))
