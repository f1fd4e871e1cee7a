-- ===== src/System/Progress.antt =====
-- A queued run whose task is not lost can be brought to its end.
use mathlib.Core.Path.{subst}
use orca_validator.Prelude.{
  ◌<◌, ◌≡◌, refl, ap, ◌∙◌, Bool, false, List, [], ◌∷◌, ◌++◌, some, arith, any, Text, text_eq,
  text_eq_refl, inl, inr, Option-cases,
}
use orca_validator.Pipeline.Database.{
  queued, Document, ValidationResult, find, find-replace_at, key-find,
}
use orca_validator.Pipeline.Environment.{Environment, Settings, RunRow}
use orca_validator.Pipeline.Validate.Body.{judge}
use orca_validator.Pipeline.Validate.{
  run_key, document_key, claimed, claim_of, process, finished, is_taken, final_status,
}
use orca_validator.Pipeline.Validate.Runs.{
  IsReady, claim-IsReady, started_run, started_document, find-claimed_run_self,
  find-claimed_document_self, finish_lem,
}
use orca_validator.Api.Documents.{ApiSettings}
use orca_validator.System.{world, put_world, Reach, IsFresh}
use orca_validator.System.Rows.{verdicts_at, verdicts_at-added}
use orca_validator.System.Steps.{waiting, status_of, status_at}
use orca_validator.System.Runs.{life-IsFit}
use orca_validator.System.Documents.{service-IsPaired}
use orca_validator.System.Work.{
  Work, claiming, finishing, Works, stay, go, Works-trans, Reach-Works,
}
use orca_validator.System.Begun.{count_split, State, HasRowsOf, Begun-waiting}

-- Without a verdict for a run there is no result of it.
any-verdicts_at :
    {A : Type 0} (k : Text) (results : List (ValidationResult A))
    → verdicts_at k results ≡ []
    → any (λ (r : ValidationResult A). text_eq r.run_id k) results ≡ false
any-verdicts_at k [] h = refl
any-verdicts_at k (r ∷ results) h = ground (arith, any-verdicts_at k results)

module _ (env : Environment) (low high : env.Temperature)
    (lt : env.Temperature → env.Temperature → Bool) (settings : ApiSettings) where
  -- A queued run has a row.
  queued_run :
      (k : Text) (s : State env low high lt settings)
      → status_at env low high lt settings k s ≡ some queued
      → (run : RunRow env) × (find (run_key env) k s.service.runs ≡ some run)
        × (is_taken run.status ≡ false)
  queued_run k s e = elim (Option-cases (find (run_key env) k s.service.runs)) [
    | inl gone ↦ absurd (let e' = rw gone at e in cc)
    | inr (run, found) ↦
        let e' : some run.status ≡ some queued = rw found at e in
        let status : run.status ≡ queued = cc in (run, found, rw status refl)
  ]

  -- The run has one result, of this verdict, and the status that it means.
  abbrev pub EndsWith : Text → Text → State env low high lt settings → Type 0
  EndsWith v k s =
      (verdicts_at k s.service.results ≡ v ∷ [])
      × (status_at env low high lt settings k s ≡ some (final_status v))

  -- What a run is judged to be, with the bridge and the outside of a state.
  abbrev pub verdict_of :
      Settings → Text → RunRow env → Document → State env low high lt settings → Text
  verdict_of pipeline k run doc s =
      (judge env pipeline (claim_of env k run doc) s.bridge s.outside).locals.verdict

  verdict_of-HasRowsOf :
      (pipeline : Settings) (k : Text) (run : RunRow env) (doc : Document)
      {s t : State env low high lt settings}
      → HasRowsOf env low high lt settings s t
      → verdict_of pipeline k run doc t ≡ verdict_of pipeline k run doc s
  verdict_of-HasRowsOf pipeline k run doc {s} {t} same =
      ap (λ b. (judge env pipeline (claim_of env k run doc) b t.outside).locals.verdict) same.bridge
      ∙ ap (λ o. (judge env pipeline (claim_of env k run doc) s.bridge o).locals.verdict)
          same.outside

  -- A task at work can be finished, with what its run is judged to be.
  finishes :
      (pipeline : Settings) (k : Text) (s : State env low high lt settings) (others : List Text)
      {run : RunRow env} {doc : Document}
      → s.working ≡ k ∷ others
      → find (run_key env) k s.service.runs ≡ some run
      → find (document_key env) run.document_id s.service.documents ≡ some doc
      → verdicts_at k s.service.results ≡ []
      → (u : State env low high lt settings) × Works env low high lt settings pipeline s u
        × EndsWith (verdict_of pipeline k run doc s) k u
  unfolding process
  finishes pipeline k s others {run} {doc} at_work found has_document fresh =
      let p = process env pipeline (claim_of env k run doc) (world env low high lt settings s) in
      let v = verdict_of pipeline k run doc s in
      let w = finished env run doc p.0.0 p.0.1 p.1 in
      let u : State env low high lt settings = record (put_world env low high lt settings w s) {
        working = others;
      } in
      let done_step : Work env low high lt settings pipeline s u =
        finishing s [] others k run doc at_work found has_document (
          finish_lem env k p.1 p.0.0 p.0.1 found has_document
            (any-verdicts_at k s.service.results fresh)) in
      let verdict : verdicts_at k u.service.results ≡ v ∷ [] =
        verdicts_at-added k p.0.1 s.service.results ∙ rw (fresh, text_eq_refl) refl in
      let status : status_at env low high lt settings k u ≡ some (final_status v) =
        ap (status_of env low high lt settings) (
          find-replace_at (run_key env) k k _ run s.service.runs
            (key-find (run_key env) k run s.service.runs found) found)
        ∙ rw text_eq_refl refl in
      (u, go stay done_step, (verdict, status))

  -- A task that has begun can be worked off, with what its run is judged to be.
  ends :
      (pipeline : Settings) (k : Text) (s : State env low high lt settings)
      (before after : List Text) {run : RunRow env} {doc : Document}
      → s.started ≡ before ++ k ∷ after
      → IsReady env k (world env low high lt settings s) run doc
      → verdicts_at k s.service.results ≡ []
      → (u : State env low high lt settings) × Works env low high lt settings pipeline s u
        × EndsWith (verdict_of pipeline k run doc s) k u
  ends pipeline k s before after {run} {doc} split ready fresh =
      let start = world env low high lt settings s in
      let w = claimed env run doc start in
      let at_work : State env low high lt settings =
        record (put_world env low high lt settings w s) {
          started = before ++ after;
          working = k ∷ s.working;
        } in
      let claimed_now : Work env low high lt settings pipeline s at_work =
        claiming s before after k split (claim-IsReady env k start ready) in
      let (u, reached, ended) =
        finishes pipeline k at_work s.working {run = started_run env k run start}
          {doc = started_document env k doc} refl (find-claimed_run_self env k start ready)
          (find-claimed_document_self env k start ready) fresh in
      (u, Works-trans env low high lt settings pipeline (go stay claimed_now) reached, ended)

  -- From a service to which no document was submitted yet, whatever happened since: where a run is
  -- queued, and a task of it is in the queue, among the background tasks or begun, the run and its
  -- document are stored, and work of the tasks, each of which writes nothing but what the pipeline
  -- makes of its run, leads to a state in which the run has one result, of the verdict that the
  -- pipeline judges with what it finds now, and the status that this verdict means.
  pub queued-EndsWith :
      {s t : State env low high lt settings} (pipeline : Settings) (k : Text)
      → IsFresh env low high lt settings s
      → Reach env low high lt settings s t
      → status_at env low high lt settings k t ≡ some queued
      → 0 < waiting env low high lt settings k t
      → (run : RunRow env) × (doc : Document) × (find (run_key env) k t.service.runs ≡ some run)
        × (find (document_key env) run.document_id t.service.documents ≡ some doc)
        × ((u : State env low high lt settings) × Works env low high lt settings pipeline t u
            × EndsWith (verdict_of pipeline k run doc t) k u)
  queued-EndsWith {s} {t} pipeline k h r is_queued waits =
      let b = Begun-waiting env low high lt settings pipeline k t waits in
      let (before, after, split) = count_split k b.after.started b.started in
      let all = Reach-Works env low high lt settings pipeline r b.reached in
      let (run, found, open_) = queued_run k t is_queued in
      let (doc, has_document, _) =
        (service-IsPaired env low high lt settings h r).same k run found in
      let found' : find (run_key env) k b.after.service.runs ≡ some run =
        ap (find (run_key env) k) b.service.runs ∙ found in
      let ready : IsReady env k (world env low high lt settings b.after) run doc = record {
        has_run = found';
        is_open = open_;
        has_document =
            ap (find (document_key env) run.document_id) b.service.documents ∙ has_document;
      } in
      let status : status_at env low high lt settings k b.after ≡ some queued =
        ap (λ runs. status_of env low high lt settings (find (run_key env) k runs)) b.service.runs
        ∙ is_queued in
      let fit = rw status at (life-IsFit env low high lt settings k h all) in
      let (u, reached, ended) = ends pipeline k b.after before after split ready fit.2 in
      (
        run,
        doc,
        found,
        has_document,
        (
          u,
          Works-trans env low high lt settings pipeline b.reached reached,
          subst (λ v. EndsWith v k u) (verdict_of-HasRowsOf pipeline k run doc b.service) ended,
        ),
      )
