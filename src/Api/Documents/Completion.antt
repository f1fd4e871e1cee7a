-- ===== src/Api/Documents/Completion.antt =====
-- From a submission (backend/api/documents.py) to the end of its run (backend/pipeline/validate.py).
use mathlib.Core.Path.{subst}
use orca_validator.Prelude.{
  ◌≡◌, refl, sym, ap, ◌∙◌, Bool, true, false, List, [], ◌∷◌, ◌++◌, none, some, arith, any, Text,
  lit, is_empty, text_eq, text_eq_refl, Bool-cases, inl, inr,
}
use orca_validator.Orca.Bridge.{Bridge}
use orca_validator.Pipeline.Database.{find}
use orca_validator.Pipeline.Environment.{Environment, Settings, World, ResultRow}
use orca_validator.Pipeline.Validate.{run_key, document_key, run_validation}
use orca_validator.Pipeline.Validate.Runs.{IsReady}
use orca_validator.Pipeline.Validate.Completion.{Completed, run_validation-Completed}
use orca_validator.Api.Http.{Response, reply, is_ascii}
use orca_validator.Api.Documents.{
  Float, Upload, ApiSettings, SubmitResponse, Service, hand_over, new_document, new_run,
  submit_document,
}
use orca_validator.Api.Documents.Submission.{
  is_authorized, is_storable, accepted, stored, queued_response, submit_document_lem,
}

module _ {A : Type 0} (key : A → Text) where
  find-append_last :
      (k : Text) (r : A) (rows : List A)
      → key r ≡ k
      → find key k rows ≡ none
      → find key k (rows ++ r ∷ []) ≡ some r
  unfolding find
  find-append_last k r [] e h = rw e (rw text_eq_refl refl)
  find-append_last k r (a ∷ rows) e h = ground (arith, h, find-append_last k r rows e)

module _ (env : Environment) (zero one : env.Temperature)
    (lt : env.Temperature → env.Temperature → Bool) where
  -- The floats are the temperatures of the pipeline.
  abbrev pub floats : Float
  floats = record { F = env.Temperature; zero = zero; one = one; lt = lt }

  abbrev pub State : Type 0
  State = Service env.Temperature env.Time env.Analysis

  -- The tables as the pipeline sees them, with a bridge and what is outside.
  abbrev pub world_of : State → Bridge env.runtime → env.Outside → World env
  world_of s b o = record {
    documents = s.documents;
    runs = s.runs;
    results = s.results;
    bridge = b;
    outside = o;
  }

  -- Scheduling leaves the tables alone.
  scheduled :
      (settings : ApiSettings) (run_id : Text) (s : State)
      → ((hand_over floats env.Time env.Analysis settings run_id s).runs ≡ s.runs)
        × ((hand_over floats env.Time env.Analysis settings run_id s).documents ≡ s.documents)
        × ((hand_over floats env.Time env.Analysis settings run_id s).results ≡ s.results)
  scheduled settings run_id s = elim (Bool-cases settings.use_redis_queue) [
    | inl e ↦ rw e (refl, refl, refl)
    | inr e ↦ rw e (refl, refl, refl)
  ]

  -- The identifiers that the database chose are new.
  pub record IsNew (u : Upload env.Temperature env.Time) (s : State) : Type 0 where
    pub no_run : find (run_key env) u.run_id s.runs ≡ none
    pub no_document : find (document_key env) u.document_id s.documents ≡ none
    pub no_result : any (λ (r : ResultRow env). text_eq r.run_id u.run_id) s.results ≡ false

  module _ (settings : ApiSettings) where
    accepted-IsReady :
        (u : Upload env.Temperature env.Time) (s : State) (b : Bridge env.runtime) (o : env.Outside)
        → IsNew u s
        → IsReady env u.run_id
            (world_of (accepted floats env.Time env.Analysis settings u s) b o)
            (new_run floats env.Time env.Analysis s.verified_machines u (lit "contract_validation"))
            (new_document floats env.Time env.Analysis (lit "api-key-subject") u)
    accepted-IsReady u s b o new =
        let kept = scheduled settings u.run_id (stored floats env.Time env.Analysis settings u s) in
        record {
          has_run =
              ap (find (run_key env) u.run_id) kept.0
              ∙ find-append_last (run_key env) u.run_id _ s.runs refl new.no_run;
          is_open = refl;
          has_document =
              ap (find (document_key env) u.document_id) kept.1
              ∙ find-append_last (document_key env) u.document_id _ s.documents refl
                  new.no_document;
        }

    -- Where the configured key is ASCII, the identifiers that the database chose are new, neither the
    -- blob store nor the database nor Redis raises, and the name, the reference and the hash fit their
    -- columns: whoever has the key and submits a contract that is not empty gets the identifiers of the run; and the
    -- call of run_validation on that run, whatever bridge and outside it finds, is carried to its
    -- end: it returns, adds one result for the run, and sets the status of the run and of the
    -- document by the verdict.
    pub submit_document-Completed :
        (pipeline : Settings) (authorization : Text) (u : Upload env.Temperature env.Time)
        (s : State) (b : Bridge env.runtime) (o : env.Outside)
        → is_ascii settings.api_key ≡ true
        → is_authorized floats env.Time env.Analysis settings authorization ≡ true
        → text_eq (lit "contract") u.doc_type ≡ true
        → is_empty u.bytes ≡ false
        → u.trouble ≡ none
        → is_storable floats env.Time env.Analysis settings u s ≡ true
        → IsNew u s
        → ((submit_document floats env.Time env.Analysis settings authorization u s).0
            ≡ reply (queued_response floats env.Time env.Analysis settings u))
          × Completed env pipeline u.run_id
              (world_of
                (submit_document floats env.Time env.Analysis settings authorization u s).1
                b
                o)
              (new_run floats env.Time env.Analysis s.verified_machines u
                (lit "contract_validation"))
              (new_document floats env.Time env.Analysis (lit "api-key-subject") u)
              (run_validation env pipeline u.run_id (
                world_of
                  (submit_document floats env.Time env.Analysis settings authorization u s).1
                  b
                  o))
    submit_document-Completed pipeline authorization u s b o ascii allowed contract filled calm fits
          new =
        let after = accepted floats env.Time env.Analysis settings u s in
        let run =
          new_run floats env.Time env.Analysis s.verified_machines u (lit "contract_validation") in
        let doc = new_document floats env.Time env.Analysis (lit "api-key-subject") u in
        let submitted : submit_document floats env.Time env.Analysis settings authorization u s
            ≡ (reply (queued_response floats env.Time env.Analysis settings u), after) =
          submit_document_lem floats env.Time env.Analysis settings ascii authorization u s
          ∙ rw (allowed, contract, filled, calm, fits) refl in
        let unique =
          ap (any (λ (r : ResultRow env). text_eq r.run_id u.run_id))
            (scheduled settings u.run_id (stored floats env.Time env.Analysis settings u s)).2
          ∙ new.no_result in
        (
          ap (λ x. x.0) submitted,
          subst
              (λ (x : Response SubmitResponse × State).
                Completed env pipeline u.run_id (world_of x.1 b o) run doc
                  (run_validation env pipeline u.run_id (world_of x.1 b o)))
              (sym submitted)
              (run_validation-Completed env pipeline u.run_id (world_of after b o)
                (accepted-IsReady u s b o new) unique),
        )
