-- ===== src/Pipeline/Validate/Completion.antt =====
-- A run that is ready is carried to its end, and a second call changes nothing.
use orca_validator.Prelude.{
  ◌≡◌, refl, ap, ◌∙◌, true, false, [], ◌∷◌, ◌++◌, some, Text, any, inl, inr, if◌then◌else◌, if-if,
  Result, ok, text_eq, text_eq_refl, Option-cases, Bool-cases,
}
use orca_validator.Pipeline.Database.{Document, find, find-replace_at, key-find}
use orca_validator.Pipeline.Environment.{Environment, Settings, World, RunRow, ResultRow}
use orca_validator.Pipeline.Validate.Body.{Locals, judge}
use orca_validator.Pipeline.Validate.{
  run_key, document_key, is_taken, claim_of, claimed, claim, final_status, final_error, finished,
  process, run_validation,
}
use orca_validator.Pipeline.Validate.Runs.{
  IsClosed, run_validation-IsClosed, IsReady, claim-IsReady, taken-IsClosed, started_run,
  started_document, find-claimed_run, find-claimed_document, find-claimed_run_self,
  find-claimed_document_self, finish_lem, finish_duplicate, run_validation_lost,
  final_status-is_taken,
}

module _ (env : Environment) where
  -- A result records the judgement.
  pub record IsJudgement (l : Locals env) (res : ResultRow env) : Type 0 where
    pub verdict : res.verdict ≡ l.verdict
    pub final_state : res.final_state ≡ l.final_state
    pub reasons : res.reasons ≡ l.reasons
    pub fields : res.extracted_fields ≡ l.fields

module _ (env : Environment) (settings : Settings) (run_id : Text) where
  -- What a call has done to the rows, for its run and for every other.
  pub record Completed (w : World env) (old : RunRow env) (doc_row : Document)
      (out : Result (Unit {0}) × World env) : Type 0 where
    pub res : ResultRow env
    pub run : RunRow env
    pub doc : Document
    pub returns : out.0 ≡ ok tt
    pub results : out.1.results ≡ w.results ++ res ∷ []
    pub for_run : res.run_id ≡ run_id
    pub runs :
        (k : Text)
        → find (run_key env) k out.1.runs
          ≡ (if text_eq run_id k then some run else find (run_key env) k w.runs)
    pub documents :
        (k : Text)
        → find (document_key env) k out.1.documents
          ≡ (if text_eq run.document_id k then some doc else find (document_key env) k w.documents)
    pub judged :
        IsJudgement env
          (judge env settings (claim_of env run_id old doc_row) w.bridge w.outside).locals
          res
    pub run_status : run.status ≡ final_status res.verdict
    pub doc_status : doc.status ≡ run.status

  -- The variables, the result and the world when the last transaction begins.
  abbrev processed : World env → RunRow env → Document → (Locals env × ResultRow env) × World env
  processed w run doc = process env settings (claim_of env run_id run doc) (claimed env run doc w)

  -- The world when the call returns.
  abbrev ended : World env → RunRow env → Document → World env
  ended w run doc =
      let p = processed w run doc in
      finished env (started_run env run_id run w) (started_document env run_id doc) p.0.0 p.0.1 p.1

  run_validation_lem :
      (w : World env) {run : RunRow env} {doc : Document}
      → IsReady env run_id w run doc
      → any (λ (r : ResultRow env). text_eq r.run_id run_id) w.results ≡ false
      → run_validation env settings run_id w ≡ (ok tt, ended w run doc)
  unfolding run_validation process
  run_validation_lem w {run} {doc} ready unique =
      let p = processed w run doc in
      rw (claim-IsReady env run_id w ready) (
        finish_lem env run_id p.1 {run = started_run env run_id run w}
          {doc = started_document env run_id doc} p.0.0 p.0.1
          (find-claimed_run_self env run_id w ready) (find-claimed_document_self env run_id w ready)
          unique)

  -- The rows as the last transaction leaves them.
  abbrev final_run : World env → RunRow env → Document → RunRow env
  final_run w run doc =
      let p = processed w run doc in
      record (started_run env run_id run w) {
        status = final_status p.0.0.verdict;
        finished_at = some (env.utcnow p.1.outside);
        error = final_error env p.0.0 run.error;
      }

  abbrev final_document : World env → RunRow env → Document → Document
  final_document w run doc = record doc { status = final_status (processed w run doc).0.0.verdict }

  find-ended_run :
      (w : World env) {run : RunRow env} {doc : Document}
      → IsReady env run_id w run doc
      → (k : Text)
      → find (run_key env) k (ended w run doc).runs
        ≡ (if text_eq run_id k then some (final_run w run doc) else find (run_key env) k w.runs)
  unfolding process
  find-ended_run w {run} {doc} ready k =
      find-replace_at (run_key env) k run_id (final_run w run doc) (started_run env run_id run w)
        (claimed env run doc w).runs (key-find (run_key env) run_id run w.runs ready.has_run)
        (find-claimed_run_self env run_id w ready)
      ∙ if-if (text_eq run_id k) (some (final_run w run doc)) (some (started_run env run_id run w))
          (find (run_key env) k w.runs) (find (run_key env) k (claimed env run doc w).runs)
          (find-claimed_run env run_id w ready k)

  find-ended_document :
      (w : World env) {run : RunRow env} {doc : Document}
      → IsReady env run_id w run doc
      → (k : Text)
      → find (document_key env) k (ended w run doc).documents ≡ (
          if text_eq run.document_id k
          then some (final_document w run doc)
          else find (document_key env) k w.documents)
  unfolding process
  find-ended_document w {run} {doc} ready k =
      find-replace_at (document_key env) k run.document_id (final_document w run doc)
        (started_document env run_id doc) (claimed env run doc w).documents
        (key-find (document_key env) run.document_id doc w.documents ready.has_document)
        (find-claimed_document_self env run_id w ready)
      ∙ if-if (text_eq run.document_id k) (some (final_document w run doc))
          (some (started_document env run_id doc)) (find (document_key env) k w.documents)
          (find (document_key env) k (claimed env run doc w).documents)
          (find-claimed_document env run_id w ready k)

  ended-Completed :
      (w : World env) {run : RunRow env} {doc : Document}
      → IsReady env run_id w run doc
      → Completed w run doc (ok tt, ended w run doc)
  unfolding process
  ended-Completed w {run} {doc} ready = record {
    res = (processed w run doc).0.1;
    run = final_run w run doc;
    doc = final_document w run doc;
    returns = refl;
    results = refl;
    for_run = refl;
    runs = find-ended_run w ready;
    documents = find-ended_document w ready;
    judged = record { verdict = refl; final_state = refl; reasons = refl; fields = refl };
    run_status = refl;
    doc_status = refl;
  }

  -- A run that can be claimed and has no result yet is carried to its end: the call returns, one
  -- result is added, it is for this run and records what was judged, the run's status is the final
  -- status of the result's verdict, its document has the same status, and no other run or document
  -- changes.
  pub run_validation-Completed :
      (w : World env) {run : RunRow env} {doc : Document}
      → IsReady env run_id w run doc
      → any (λ (r : ResultRow env). text_eq r.run_id run_id) w.results ≡ false
      → Completed w run doc (run_validation env settings run_id w)
  run_validation-Completed w {run} {doc} ready unique =
      rw (run_validation_lem w ready unique) (ended-Completed w ready)

  -- The world after a call, when the last transaction raises.
  run_validation_raises :
      (w : World env) {run : RunRow env} {doc : Document}
      → IsReady env run_id w run doc
      → any (λ (r : ResultRow env). text_eq r.run_id run_id) w.results ≡ true
      → (run_validation env settings run_id w).1 ≡ (processed w run doc).1
  unfolding run_validation process
  run_validation_raises w {run} {doc} ready stored =
      let p = processed w run doc in
      rw (claim-IsReady env run_id w ready) (
        finish_duplicate env run_id p.1 {run = started_run env run_id run w}
          {doc = started_document env run_id doc} p.0.0 p.0.1
          (find-claimed_run_self env run_id w ready) (find-claimed_document_self env run_id w ready)
          stored)

  call_again :
      (again : Settings) (w w' : World env)
      → (run_validation env settings run_id w).1 ≡ w'
      → IsClosed env run_id w'
      → (run_validation env again run_id (run_validation env settings run_id w).1).1
        ≡ (run_validation env settings run_id w).1
  call_again again w w' e closed =
      rw e (ap (λ r. r.1) (run_validation-IsClosed env run_id again w' closed))

  again_IsClosed :
      (again : Settings) (w : World env)
      → IsClosed env run_id w
      → (run_validation env again run_id (run_validation env settings run_id w).1).1
        ≡ (run_validation env settings run_id w).1
  again_IsClosed again w closed =
      call_again again w w (ap (λ r. r.1) (run_validation-IsClosed env run_id settings w closed))
        closed

  again_IsReady :
      (again : Settings) (w : World env) {run : RunRow env} {doc : Document}
      → IsReady env run_id w run doc
      → (run_validation env again run_id (run_validation env settings run_id w).1).1
        ≡ (run_validation env settings run_id w).1
  unfolding process
  again_IsReady again w {run} {doc} ready =
      elim (Bool-cases (any (λ (r : ResultRow env). text_eq r.run_id run_id) w.results)) [
        | inl stored ↦
            call_again again w (processed w run doc).1 (run_validation_raises w ready stored) (
              taken-IsClosed env run_id (processed w run doc).1 {run = started_run env run_id run w}
                (find-claimed_run_self env run_id w ready) refl)
        | inr unique ↦
            call_again again w (ended w run doc) (ap (λ r. r.1) (run_validation_lem w ready unique))
              (taken-IsClosed env run_id (ended w run doc) {run = final_run w run doc}
                (find-ended_run w ready run_id ∙ rw text_eq_refl)
                (final_status-is_taken (processed w run doc).0.0.verdict))
      ]

  -- A second call changes nothing, whatever the first one did: it claimed the run or not, and the
  -- run was finished or the last transaction raised.
  pub run_validation_idem :
      (again : Settings) (w : World env)
      → (run_validation env again run_id (run_validation env settings run_id w).1).1
        ≡ (run_validation env settings run_id w).1
  run_validation_idem again w = elim (Option-cases (find (run_key env) run_id w.runs)) [
    | inl gone ↦ again_IsClosed again w (unfold claim in rw (gone, claim))
    | inr (run, found) ↦ elim (Bool-cases (is_taken run.status)) [
      | inl taken ↦ again_IsClosed again w (taken-IsClosed env run_id w found taken)
      | inr open_ ↦ elim (Option-cases (find (document_key env) run.document_id w.documents)) [
        | inl lost ↦
            rw (run_validation_lost env run_id settings w found open_ lost)
              (ap (λ r. r.1) (run_validation_lost env run_id again w found open_ lost))
        | inr (doc, has_document) ↦
            again_IsReady again w
              (record { has_run = found; is_open = open_; has_document = has_document })
      ]
    ]
  ]
