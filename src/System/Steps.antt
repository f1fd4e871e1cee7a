-- ===== src/System/Steps.antt =====
-- What each step of the service does to the life of a run.
use mathlib.Core.Path.{subst}
use orca_validator.Prelude.{
  ℕ, ◌+◌, ◌≤◌, ◌≡◌, refl, sym, ap, ◌∙◌, Bool, true, false, List, [], ◌∷◌, ◌++◌, Option, none, some,
  arith, Text, lit, text_eq, text_eq_iff, if◌then◌else◌, inl, inr, Bool-cases,
}
use orca_validator.Pipeline.Database.{Status, queued, FsmReport, find, find-replace_at, key-find}
use orca_validator.Pipeline.Environment.{Environment, World, RunRow}
use orca_validator.Pipeline.Queue.{enqueue}
use orca_validator.Pipeline.Worker.Bounded.{count, count-append, count_dequeued}
use orca_validator.Pipeline.Validate.Body.{Locals}
use orca_validator.Pipeline.Validate.Assess.{Assessment}
use orca_validator.Pipeline.Validate.{run_key, result_of}
use orca_validator.Pipeline.Validate.Runs.{find-claimed_run}
use orca_validator.Api.Documents.{Upload, ApiSettings, new_run}
use orca_validator.Api.Documents.Submission.{accepted, stored}
use orca_validator.Api.Documents.Completion.{floats, State, IsNew}
use orca_validator.System.{
  System, world, put_world, Step, submit, take, begin, claim_run, leave, finish_run, die,
  lose_queued, lose_background, elsewhere,
}
use orca_validator.System.Life.{
  Life, Move, kept, scheduled_at, unscheduled_at, claimed_at, ended_at,
}
use orca_validator.System.Rows.{
  count-removed, find-added, verdicts_at, verdicts_at-added, Claiming, claim-Claiming, Finishing,
  finish-Finishing,
}
use orca_validator.System.Submitted.{Untouched, submit_document-cases}

module _ (env : Environment) (zero one : env.Temperature)
    (lt : env.Temperature → env.Temperature → Bool) (settings : ApiSettings) where
  -- How often a run waits for its first transaction.
  abbrev pub waiting : Text → System env zero one lt settings → ℕ
  waiting k s = count k s.service.queue + count k s.service.background + count k s.started

  -- The status of the row of a run.
  abbrev pub status_of : Option (RunRow env) → Option Status
  status_of none = none
  status_of (some run) = some run.status

  abbrev pub status_at : Text → System env zero one lt settings → Option Status
  status_at k s = status_of (find (run_key env) k s.service.runs)

  -- What the service keeps of one run.
  abbrev pub life : Text → System env zero one lt settings → Life
  life k s = record {
    status = status_at k s;
    waiting = waiting k s;
    working = count k s.working;
    verdicts = verdicts_at k s.service.results;
  }

  status_if :
      (b : Bool) (run : RunRow env) (o : Option (RunRow env))
      → status_of (if b then some run else o) ≡ (if b then some run.status else status_of o)
  status_if true run o = refl
  status_if false run o = refl

  -- A row that was found under an equal key.
  status_found :
      (r k : Text) (rows : List (RunRow env)) (o : Option (RunRow env))
      → find (run_key env) r rows ≡ o
      → text_eq r k ≡ true
      → status_of (find (run_key env) k rows) ≡ status_of o
  status_found r k rows o e h =
      subst (λ j. status_of (find (run_key env) j rows) ≡ status_of o) ((text_eq_iff r k).0 h)
        (ap status_of e)

  life-accepted :
      (k : Text) (u : Upload env.Temperature env.Time) (s : System env zero one lt settings)
      → IsNew env zero one lt u s.service
      → Move (life k s) (
          life k (record s {
            service = accepted (floats env zero one lt) env.Time env.Analysis settings u s.service;
          }))
  life-accepted k u s new =
      let row =
        new_run (floats env zero one lt) env.Time env.Analysis s.service.verified_machines u
          (lit "contract_validation") in
      let now : status_of (find (run_key env) k (s.service.runs ++ row ∷ []))
          ≡ (if text_eq u.run_id k then some queued else status_at k s) =
        ap status_of (find-added (run_key env) k row s.service.runs new.no_run)
        ∙ status_if (text_eq u.run_id k) row (find (run_key env) k s.service.runs) in
      let absent = status_found u.run_id k s.service.runs none new.no_run in
      elim (Bool-cases settings.use_redis_queue) [
        | inl e ↦ rw e (
            scheduled_at (text_eq u.run_id k) (life k s) _ absent now
              (unfold enqueue in omega arith) refl refl)
        | inr e ↦ rw e (
            scheduled_at (text_eq u.run_id k) (life k s) _ absent now
              (omega (arith, count-append k s.service.background (u.run_id ∷ []))) refl refl)
      ]

  life-stored :
      (k : Text) (u : Upload env.Temperature env.Time) (s : System env zero one lt settings)
      → IsNew env zero one lt u s.service
      → Move (life k s) (
          life k (record s {
            service = stored (floats env zero one lt) env.Time env.Analysis settings u s.service;
          }))
  life-stored k u s new =
      unscheduled_at (text_eq u.run_id k) (life k s) _
        (status_found u.run_id k s.service.runs none new.no_run)
        (ap status_of (find-added (run_key env) k _ s.service.runs new.no_run)
          ∙ status_if (text_eq u.run_id k) _ (find (run_key env) k s.service.runs))
        refl refl refl

  life-claimed :
      (k : Text) (s : System env zero one lt settings) (before after : List Text) (r : Text)
      {w : World env}
      → s.started ≡ before ++ r ∷ after
      → Claiming env r (world env zero one lt settings s) w
      → Move (life k s) (
          life k (record (put_world env zero one lt settings w s) {
            started = before ++ after;
            working = r ∷ s.working;
          }))
  life-claimed k s before after r {w} e c =
      claimed_at (text_eq r k) c.run.status (life k s) _
        (status_found r k s.service.runs (some c.run) c.ready.has_run) c.ready.is_open
        (ap (λ (x : World env). status_of (find (run_key env) k x.runs)) c.after
          ∙ ap status_of (find-claimed_run env r (world env zero one lt settings s) c.ready k)
          ∙ status_if (text_eq r k) _ (find (run_key env) k s.service.runs))
        (omega (arith, count-removed k r s.started before after e)) refl
        (ap (λ (x : World env). verdicts_at k x.results) c.after)

  life-finished :
      (k : Text) (s : System env zero one lt settings) (before after : List Text) (r : Text)
      (l : Locals env) (a : Assessment env) (fsm : Option FsmReport) {w : World env}
      → s.working ≡ before ++ r ∷ after
      → Finishing env r l (result_of env r l a fsm) (world env zero one lt settings s) w
      → Move
          (life k s)
          (life k (record (put_world env zero one lt settings w s) { working = before ++ after }))
  life-finished k s before after r l a fsm {w} e c =
      ended_at (text_eq r k) c.run.status l.verdict (life k s) _
        (status_found r k s.service.runs (some c.run) c.has_run)
        (ap (λ (x : World env). status_of (find (run_key env) k x.runs)) c.after
          ∙ ap status_of (
              find-replace_at (run_key env) k r _ c.run s.service.runs
                (key-find (run_key env) r c.run s.service.runs c.has_run) c.has_run)
          ∙ status_if (text_eq r k) _ (find (run_key env) k s.service.runs))
        refl (count-removed k r s.working before after e)
        (ap (λ (x : World env). verdicts_at k x.results) c.after
          ∙ verdicts_at-added k (result_of env r l a fsm) s.service.results)

  life-Untouched :
      (k : Text) (s : System env zero one lt settings) (service' : State env zero one lt)
      → Untouched (floats env zero one lt) env.Time env.Analysis s.service service'
      → Move (life k s) (life k (record s { service = service' }))
  life-Untouched k s service' same =
      kept (ap (λ x. status_of (find (run_key env) k x)) same.runs)
        (omega (arith, ap (count k) same.queue, ap (count k) same.background)) (omega arith)
        (ap (λ x. verdicts_at k x) same.results)

  -- Fewer tasks, and no other row.
  life-fewer :
      (k : Text) (s : System env zero one lt settings)
      (queue background started working : List Text)
      → count k queue + count k background + count k started ≤ waiting k s
      → count k working ≤ count k s.working
      → Move (life k s) (
          life k (record s {
            service = record s.service { queue = queue; background = background };
            started = started;
            working = working;
          }))
  life-fewer k s queue background started working h h' = kept refl h h' refl

  -- Each step of the service is, for each run, a move of its life: its row and results stay, and at
  -- most tasks of it go away; or it had no row, and is queued with one more task that waits, or
  -- with none more where Redis raised; or it
  -- was open, and one of its tasks that wait works now, and it is running; or one of its tasks at
  -- work ends, with one more verdict, and the status that this verdict means.
  pub life-Step :
      {s t : System env zero one lt settings} (k : Text)
      → Step env zero one lt settings s t
      → Move (life k s) (life k t)
  life-Step k (submit s authorization u {response} {service'} new e) =
      elim (submit_document-cases (floats env zero one lt) env.Time env.Analysis settings
        authorization u s.service) [
          | inl same ↦ life-Untouched k s service' (rw (ap (λ x. x.1) e) at same)
          | inr (inl all) ↦
              subst (λ x. Move (life k s) (life k (record s { service = x })))
                (sym all ∙ ap (λ x. x.1) e) (life-accepted k u s new)
          | inr (inr rows) ↦
              subst (λ x. Move (life k s) (life k (record s { service = x })))
                (sym rows ∙ ap (λ x. x.1) e) (life-stored k u s new)
        ]
  life-Step k (take s r {queue'} e) =
      life-fewer k s queue' s.service.background (r ∷ s.started) s.working
        (omega
          (arith, rw (ap (λ x. x.1) e) at (count_dequeued k s.service.queue r (ap (λ x. x.0) e))))
        (omega arith)
  life-Step k (begin s before after r e) =
      life-fewer k s s.service.queue (before ++ after) (r ∷ s.started) s.working
        (omega (arith, count-removed k r s.service.background before after e)) (omega arith)
  life-Step k (claim_run s before after r {c} {w} e h) =
      life-claimed k s before after r e (claim-Claiming env r (world env zero one lt settings s) h)
  life-Step k (leave s before after r e) =
      life-fewer k s s.service.queue s.service.background (before ++ after) s.working
        (omega (arith, count-removed k r s.started before after e)) (omega arith)
  life-Step k (finish_run s before after r l a fsm {x} {w} e h) =
      elim (finish-Finishing env r l (result_of env r l a fsm) (world env zero one lt settings s)
        h) [
          | inl same ↦ rw same (
              life-fewer k s s.service.queue s.service.background s.started (before ++ after)
                (omega arith) (omega (arith, count-removed k r s.working before after e)))
          | inr c ↦ life-finished k s before after r l a fsm e c
        ]
  life-Step k (die s before after r e) =
      life-fewer k s s.service.queue s.service.background s.started (before ++ after) (omega arith)
        (omega (arith, count-removed k r s.working before after e))
  life-Step k (lose_queued s before after r e) =
      life-fewer k s (before ++ after) s.service.background s.started s.working
        (omega (arith, count-removed k r s.service.queue before after e)) (omega arith)
  life-Step k (lose_background s) =
      life-fewer k s s.service.queue [] s.started s.working (omega arith) (omega arith)
  life-Step k (elsewhere s b o) =
      life-fewer k s s.service.queue s.service.background s.started s.working (omega arith)
        (omega arith)
