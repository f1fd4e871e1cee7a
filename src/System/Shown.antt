-- ===== src/System/Shown.antt =====
-- What the result endpoint shows.
use orca_validator.Prelude.{
  ℕ, ◌≤◌, Option, ◌⊎◌, ◌≡◌, refl, ap, ◌∙◌, Bool, true, false, List, [], ◌∷◌, none, some, map, arith,
  Text, text_eq, text_eq_refl, inl, inr, Bool-cases, Option-cases,
}
use orca_validator.Pipeline.Database.{
  Status, uploaded, queued, running, done, failed, Run, ValidationResult, find,
}
use orca_validator.Pipeline.Environment.{Environment, RunRow, ResultRow}
use orca_validator.Pipeline.Validate.{run_key, final_status}
use orca_validator.Api.Http.{Response, reply, refused}
use orca_validator.Api.Documents.{ApiSettings}
use orca_validator.Api.Documents.Retrieval.{
  ResultResponse, result_key, result_response, latest_run, get_result,
}
use orca_validator.System.{System, Reach, Reach-trans, IsFresh}
use orca_validator.System.Rows.{verdicts_at}
use orca_validator.System.Distinct.{are_distinct, find-behind}
use orca_validator.System.Fits.{Fits}
use orca_validator.System.Steps.{status_of, status_at}
use orca_validator.System.Final.{progress, progress-Reach, status_at-final}
use orca_validator.System.Runs.{life-IsFit}
use orca_validator.System.Unique.{are_distinct-Reach}

-- `now` is the status of each run when the result is read. Either that there is no such run; or a
-- result, with the verdict that the run's status means by then, and the status shown is that one, or
-- queued or running, as the run was when its row was read before; or that it is not ready, and then no
-- verdict, the run is still queued or running, and the status shown is one of these.
abbrev pub IsHonest :
    {F Analysis : Type 0} → (Text → Option Status) → Response (ResultResponse F Analysis) → Type 0
IsHonest now (refused code) = code ≡ 404
IsHonest now (reply r) =
    ((v : Text) × (r.ready ≡ true)
      × (r.verdict ≡ some v)
      × (now r.run_id ≡ some (final_status v))
      × ((r.status ≡ final_status v) ⊎ (r.status ≡ queued) ⊎ (r.status ≡ running)))
    ⊎ ((r.ready ≡ false)
        × (r.verdict ≡ none)
        × ((now r.run_id ≡ some queued) ⊎ (now r.run_id ≡ some running))
        × ((r.status ≡ queued) ⊎ (r.status ≡ running)))

module _ {Analysis : Type 0} where
  verdicts_at-nil :
      (k : Text) (results : List (ValidationResult Analysis))
      → verdicts_at k results ≡ []
      → find result_key k results ≡ none
  unfolding find
  verdicts_at-nil k [] h = refl
  verdicts_at-nil k (x ∷ results) h = ground (arith, verdicts_at-nil k results)

  verdicts_at-first :
      (k v : Text) (results : List (ValidationResult Analysis))
      → verdicts_at k results ≡ v ∷ []
      → (x : ValidationResult Analysis) × (find result_key k results ≡ some x) × (x.verdict ≡ v)
  unfolding find
  verdicts_at-first k v [] h = absurd cc
  verdicts_at-first k v (x ∷ results) h = elim (Bool-cases (text_eq x.run_id k)) [
    | inl e ↦ rw e (x, refl, (let h' = rw e at h in cc))
    | inr e ↦ rw e (verdicts_at-first k v results (rw e at h))
  ]

module _ {F Time : Type 0} (later : Time → Time → Bool) where
  latest_run-cons :
      (document_id : Text) (a r : Run F Time) (runs : List (Run F Time))
      → latest_run later document_id (a ∷ runs) ≡ some r
      → (a ≡ r) ⊎ (latest_run later document_id runs ≡ some r)
  unfolding latest_run
  latest_run-cons document_id a r runs h = elim (Bool-cases (text_eq a.document_id document_id)) [
    | inr e ↦ inr (rw (e, latest_run) at h)
    | inl e ↦ elim (Option-cases (latest_run later document_id runs)) [
      | inl gone ↦ inl (let h' = rw gone at (rw (e, latest_run) at h) in cc)
      | inr (s, found) ↦ elim (Bool-cases (later s.queued_at a.queued_at)) [
        | inl after ↦ inr (found ∙ (rw after at (rw found at (rw (e, latest_run) at h))))
        | inr before ↦ inl (let h' = rw before at (rw found at (rw (e, latest_run) at h)) in cc)
      ]
    ]
  ]

module _ (env : Environment) where
  -- The latest run of a document is a row, and it is found by its own identifier.
  latest_run-found :
      (later : env.Time → env.Time → Bool) (document_id : Text) (r : RunRow env)
      (runs : List (RunRow env))
      → are_distinct (map (run_key env) runs) ≡ true
      → latest_run later document_id runs ≡ some r
      → find (run_key env) r.id runs ≡ some r
  unfolding find latest_run
  latest_run-found later document_id r [] h e = absurd cc
  latest_run-found later document_id r (a ∷ runs) h e =
      elim (latest_run-cons later document_id a r runs e) [
        | inl same ↦ rw same (rw text_eq_refl refl)
        | inr rest ↦
            find-behind (run_key env) a r.id r runs h
              (latest_run-found later document_id r runs (ground (arith, h)) rest)
      ]

module _ (env : Environment) (now : Text → Option Status) (r : RunRow env)
    (results : List (ResultRow env)) where
  -- The status that was read, where the run is queued or running afterwards.
  still_open :
      (st st' : Status) (w a : ℕ) (vs : List Text)
      → Fits (some st) w a vs
      → progress (some st) ≤ progress (some st')
      → progress (some st') ≤ 2
      → (st ≡ queued) ⊎ (st ≡ running)
  still_open uploaded st' w a vs f h k = absurd f
  still_open queued st' w a vs f h k = inl refl
  still_open running st' w a vs f h k = inr refl
  still_open done st' w a vs f h k = absurd (omega (arith, h, k))
  still_open failed st' w a vs f h k = absurd (omega (arith, h, k))

  -- The status that was read, where the run has ended afterwards.
  read_before :
      (st st' : Status) (w a : ℕ) (vs : List Text)
      → Fits (some st) w a vs
      → (progress (some st) ≡ 3 → some st' ≡ some st)
      → (st ≡ st') ⊎ (st ≡ queued) ⊎ (st ≡ running)
  read_before uploaded st' w a vs f h = absurd f
  read_before queued st' w a vs f h = inr (inl refl)
  read_before running st' w a vs f h = inr (inr refl)
  read_before done st' w a vs f h = inl (let e = h refl in cc)
  read_before failed st' w a vs f h = inl (let e = h refl in cc)

  -- A run that fits when its row is read, and fits when its result is read.
  abbrev IsShown : Option Status → Type 0
  IsShown o =
      (w w' a a' : ℕ) (vs : List Text)
      → now r.id ≡ o
      → Fits (some r.status) w a vs
      → Fits o w' a' (verdicts_at r.id results)
      → progress (some r.status) ≤ progress o
      → (progress (some r.status) ≡ 3 → o ≡ some r.status)
      → IsHonest now (reply (result_response r (find result_key r.id results)))

  IsHonest-pending :
      verdicts_at r.id results ≡ []
      → (now r.id ≡ some queued) ⊎ (now r.id ≡ some running)
      → (r.status ≡ queued) ⊎ (r.status ≡ running)
      → IsHonest now (reply (result_response r (find result_key r.id results)))
  IsHonest-pending h after before =
      rw (verdicts_at-nil r.id results h) (inr (refl, refl, after, before))

  IsHonest-ended :
      (st : Status)
      → (v : Text) × (verdicts_at r.id results ≡ v ∷ []) × (final_status v ≡ st)
      → now r.id ≡ some st
      → (r.status ≡ st) ⊎ (r.status ≡ queued) ⊎ (r.status ≡ running)
      → IsHonest now (reply (result_response r (find result_key r.id results)))
  IsHonest-ended st (v, h, e) after before =
      let (x, found, same) = verdicts_at-first r.id v results h in
      rw found (inl (v, refl, ap some same, rw e after, rw e before))

  IsHonest-result_response : (o : Option Status) → IsShown o
  IsHonest-result_response none w w' a a' vs after f f' h k = absurd (first r.status w a vs f h)
    where
      first :
          (st : Status) (w a : ℕ) (vs : List Text)
          → Fits (some st) w a vs
          → progress (some st) ≤ 0
          → ⊥
      first uploaded w a vs f h = f
      first queued w a vs f h = omega (arith, h)
      first running w a vs f h = omega (arith, h)
      first done w a vs f h = omega (arith, h)
      first failed w a vs f h = omega (arith, h)
  IsHonest-result_response (some uploaded) w w' a a' vs after f f' h k = absurd f'
  IsHonest-result_response (some queued) w w' a a' vs after f f' h k =
      IsHonest-pending f'.2 (inl after) (still_open r.status queued w a vs f h (omega arith))
  IsHonest-result_response (some running) w w' a a' vs after f f' h k =
      IsHonest-pending f'.2 (inr after) (still_open r.status running w a vs f h (omega arith))
  IsHonest-result_response (some done) w w' a a' vs after f f' h k =
      IsHonest-ended done f'.2 after (read_before r.status done w a vs f k)
  IsHonest-result_response (some failed) w w' a a' vs after f f' h k =
      IsHonest-ended failed f'.2 after (read_before r.status failed w a vs f k)

module _ (env : Environment) (zero one : env.Temperature)
    (lt : env.Temperature → env.Temperature → Bool) (settings : ApiSettings) where
  -- From a service to which no document was submitted yet, whatever happened since, also between the
  -- endpoint's two reads: for every document the result endpoint answers with 404; or with a verdict,
  -- and the run has by then the status that this verdict means, and the status shown is this one, or
  -- still queued or running, where the run ended between the reads; or that the result is not ready,
  -- with no verdict and the status queued or running, and the run is by then queued or running.
  pub get_result-IsHonest :
      {s t u : System env zero one lt settings} (later : env.Time → env.Time → Bool)
      (document_id : Text)
      → IsFresh env zero one lt settings s
      → Reach env zero one lt settings s t
      → Reach env zero one lt settings t u
      → IsHonest
          (λ k. status_at env zero one lt settings k u)
          (get_result later document_id t.service u.service)
  unfolding get_result
  get_result-IsHonest {s} {t} {u} later document_id h r r' =
      elim (Option-cases (latest_run later document_id t.service.runs)) [
        | inl gone ↦ rw (gone, get_result) refl
        | inr (run, latest) ↦
            let found =
              latest_run-found env later document_id run t.service.runs
                (are_distinct-Reach env zero one lt settings h r) latest in
            let before : status_at env zero one lt settings run.id t ≡ some run.status =
              ap (status_of env zero one lt settings) found in
            rw (latest, get_result)
              (IsHonest-result_response env (λ k. status_at env zero one lt settings k u) run
                u.service.results (status_at env zero one lt settings run.id u) _ _ _ _ _ refl
                (rw before at (life-IsFit env zero one lt settings run.id h r))
                (life-IsFit env zero one lt settings run.id h
                  (Reach-trans env zero one lt settings r r'))
                (rw before at (progress-Reach env zero one lt settings run.id r'))
                (λ final.
                  (status_at-final env zero one lt settings run.id run.status h r r' before
                    final).0))
      ]
