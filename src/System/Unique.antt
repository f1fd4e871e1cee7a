-- ===== src/System/Unique.antt =====
-- No two rows of the table of runs have the same identifier.
use mathlib.Core.Path.{subst}
use orca_validator.Prelude.{◌≡◌, refl, sym, ap, ◌∙◌, Bool, true, List, map, inl, inr, Bool-cases}
use orca_validator.Pipeline.Environment.{Environment, RunRow}
use orca_validator.Pipeline.Validate.{run_key, result_of}
use orca_validator.Api.Documents.{Upload, ApiSettings}
use orca_validator.Api.Documents.Submission.{accepted}
use orca_validator.Api.Documents.Completion.{floats, State, IsNew}
use orca_validator.System.{
  System, world, Step, submit, take, begin, claim_run, leave, finish_run, die, lose_queued,
  lose_background, elsewhere, Reach, here, next, IsFresh,
}
use orca_validator.System.Rows.{claim-Claiming, finish-Finishing}
use orca_validator.System.Distinct.{are_distinct, are_distinct-replace, are_distinct-added}
use orca_validator.System.Submitted.{submit_document-cases}

module _ (env : Environment) (zero one : env.Temperature)
    (lt : env.Temperature → env.Temperature → Bool) (settings : ApiSettings) where
  abbrev HasUnique : List (RunRow env) → Type 0
  HasUnique runs = are_distinct (map (run_key env) runs) ≡ true

  HasUnique-accepted :
      (u : Upload env.Temperature env.Time) (s : State env zero one lt)
      → IsNew env zero one lt u s
      → HasUnique s.runs
      → HasUnique (accepted (floats env zero one lt) env.Time env.Analysis settings u s).runs
  HasUnique-accepted u s new h =
      let added = are_distinct-added (run_key env) _ s.runs new.no_run h in
      elim (Bool-cases settings.use_redis_queue) [ inl e ↦ rw e added | inr e ↦ rw e added ]

  HasUnique-Step :
      {s t : System env zero one lt settings}
      → Step env zero one lt settings s t
      → HasUnique s.service.runs
      → HasUnique t.service.runs
  HasUnique-Step (submit s authorization u {response} {service'} new e) h =
      let after = ap (λ x. x.1) e in
      elim (submit_document-cases (floats env zero one lt) env.Time env.Analysis settings
        authorization u s.service) [
          | inl same ↦ rw (rw after at same.runs) h
          | inr (inl all) ↦
              subst (λ (x : State env zero one lt). HasUnique x.runs) (sym all ∙ after)
                (HasUnique-accepted u s.service new h)
          | inr (inr rows) ↦
              subst (λ (x : State env zero one lt). HasUnique x.runs) (sym rows ∙ after)
                (are_distinct-added (run_key env) _ s.service.runs new.no_run h)
        ]
  HasUnique-Step (claim_run s before after r {c} {w} e h) k =
      let c = claim-Claiming env r (world env zero one lt settings s) h in
      rw c.after (are_distinct-replace (run_key env) _ s.service.runs k)
  HasUnique-Step (finish_run s before after r l a fsm {x} {w} e h) k =
      elim (finish-Finishing env r l (result_of env r l a fsm) (world env zero one lt settings s)
        h) [
          | inl same ↦ rw same k
          | inr c ↦ rw c.after (are_distinct-replace (run_key env) _ s.service.runs k)
        ]
  HasUnique-Step (take s r e) h = h
  HasUnique-Step (begin s before after r e) h = h
  HasUnique-Step (leave s before after r e) h = h
  HasUnique-Step (die s before after r e) h = h
  HasUnique-Step (lose_queued s before after r e) h = h
  HasUnique-Step (lose_background s) h = h
  HasUnique-Step (elsewhere s b o) h = h

  pub are_distinct-Reach :
      {s t : System env zero one lt settings}
      → IsFresh env zero one lt settings s
      → Reach env zero one lt settings s t
      → HasUnique t.service.runs
  are_distinct-Reach h here = rw h.runs refl
  are_distinct-Reach h (next r st) = HasUnique-Step st (are_distinct-Reach h r)
