-- ===== src/Pipeline/Validate/Runs.antt =====
-- What a call of run_validation does to the rows of the database.
use orca_validator.Prelude.{
  ◌≡◌, refl, ◌∙◌, true, false, none, some, arith, Text, any, if◌then◌else◌, ok, err, text_eq,
  text_eq_refl,
}
use orca_validator.Pipeline.Database.{running, Document, find, find-replace_at, key-find}
use orca_validator.Pipeline.Environment.{Environment, Settings, World, RunRow, ResultRow}
use orca_validator.Pipeline.Validate.Body.{Locals}
use orca_validator.Pipeline.Validate.{
  run_key, document_key, is_taken, claim_of, claimed, claim, final_status, finished, finish,
  run_validation, missing_row,
}

pub final_status-is_taken : (verdict : Text) → is_taken (final_status verdict) ≡ true
final_status-is_taken verdict = ground arith

module _ (env : Environment) (run_id : Text) where
  -- The run does not exist, or it is running, or it has ended.
  abbrev pub IsClosed : World env → Type 0
  IsClosed w = claim env run_id w ≡ (ok none, w)

  pub run_validation-IsClosed :
      (settings : Settings) (w : World env)
      → IsClosed w
      → run_validation env settings run_id w ≡ (ok tt, w)
  unfolding run_validation
  run_validation-IsClosed settings w h = rw h

  -- A run with its document, ready to be claimed.
  pub record IsReady (w : World env) (run : RunRow env) (doc : Document) : Type 0 where
    pub has_run : find (run_key env) run_id w.runs ≡ some run
    pub is_open : is_taken run.status ≡ false
    pub has_document : find (document_key env) run.document_id w.documents ≡ some doc

  pub claim-IsReady :
      (w : World env) {run : RunRow env} {doc : Document}
      → IsReady w run doc
      → claim env run_id w ≡ (ok (some (claim_of env run_id run doc)), claimed env run doc w)
  unfolding claim
  claim-IsReady w ready =
      rw (ready.has_run, claim) (rw ready.is_open (rw (ready.has_document, claim)))

  -- A claimed run is closed, and so is one whose row has a final status.
  pub taken-IsClosed :
      (w : World env) {run : RunRow env}
      → find (run_key env) run_id w.runs ≡ some run
      → is_taken run.status ≡ true
      → IsClosed w
  unfolding claim
  taken-IsClosed w found taken = rw (found, claim) (rw taken)

  -- The row of a run or a document as the first transaction leaves it.
  abbrev pub started_run : RunRow env → World env → RunRow env
  started_run run w = record run { status = running; started_at = some (env.utcnow w.outside) }

  abbrev pub started_document : Document → Document
  started_document doc = record doc { status = running }

  pub find-claimed_run :
      (w : World env) {run : RunRow env} {doc : Document}
      → IsReady w run doc
      → (k : Text)
      → find (run_key env) k (claimed env run doc w).runs
        ≡ (if text_eq run_id k then some (started_run run w) else find (run_key env) k w.runs)
  find-claimed_run w {run} {doc} ready k =
      find-replace_at (run_key env) k run_id (started_run run w) run w.runs
        (key-find (run_key env) run_id run w.runs ready.has_run) ready.has_run

  pub find-claimed_document :
      (w : World env) {run : RunRow env} {doc : Document}
      → IsReady w run doc
      → (k : Text)
      → find (document_key env) k (claimed env run doc w).documents ≡ (
          if text_eq run.document_id k
          then some (started_document doc)
          else find (document_key env) k w.documents)
  find-claimed_document w {run} {doc} ready k =
      find-replace_at (document_key env) k run.document_id (started_document doc) doc w.documents
        (key-find (document_key env) run.document_id doc w.documents ready.has_document)
        ready.has_document

  pub find-claimed_run_self :
      (w : World env) {run : RunRow env} {doc : Document}
      → IsReady w run doc
      → find (run_key env) run_id (claimed env run doc w).runs ≡ some (started_run run w)
  find-claimed_run_self w ready = find-claimed_run w ready run_id ∙ rw text_eq_refl

  pub find-claimed_document_self :
      (w : World env) {run : RunRow env} {doc : Document}
      → IsReady w run doc
      → find (document_key env) run.document_id (claimed env run doc w).documents
        ≡ some (started_document doc)
  find-claimed_document_self w {run} ready =
      find-claimed_document w ready run.document_id ∙ rw text_eq_refl

  -- The first transaction closes the run for every later call.
  pub claimed-IsClosed :
      (w : World env) {run : RunRow env} {doc : Document}
      → IsReady w run doc
      → IsClosed (claimed env run doc w)
  claimed-IsClosed w {run} {doc} ready =
      taken-IsClosed (claimed env run doc w) {run = started_run run w}
        (find-claimed_run w ready run_id ∙ rw text_eq_refl) refl

  -- The rows that the last transaction works on.
  pub finish_lem :
      (w : World env) {run : RunRow env} {doc : Document} (l : Locals env) (res : ResultRow env)
      → find (run_key env) run_id w.runs ≡ some run
      → find (document_key env) run.document_id w.documents ≡ some doc
      → any (λ (r : ResultRow env). text_eq r.run_id run_id) w.results ≡ false
      → finish env run_id l res w ≡ (ok tt, finished env run doc l res w)
  unfolding finish
  finish_lem w l res found has_document unique =
      rw (found, finish) (rw (has_document, finish) (rw unique))

  pub finish_duplicate :
      (w : World env) {run : RunRow env} {doc : Document} (l : Locals env) (res : ResultRow env)
      → find (run_key env) run_id w.runs ≡ some run
      → find (document_key env) run.document_id w.documents ≡ some doc
      → any (λ (r : ResultRow env). text_eq r.run_id run_id) w.results ≡ true
      → (finish env run_id l res w).1 ≡ w
  unfolding finish
  finish_duplicate w l res found has_document stored =
      rw (found, finish) (rw (has_document, finish) (rw stored))

  -- Without its document a run cannot be claimed, and the call raises.
  pub run_validation_lost :
      (settings : Settings) (w : World env) {run : RunRow env}
      → find (run_key env) run_id w.runs ≡ some run
      → is_taken run.status ≡ false
      → find (document_key env) run.document_id w.documents ≡ none
      → run_validation env settings run_id w ≡ (err missing_row, w)
  unfolding run_validation claim
  run_validation_lost settings w found open_ lost = rw (found, claim) (rw open_ (rw (lost, claim)))
