-- ===== src/System/Documents.antt =====
-- The documents in the states that the service can reach.
use mathlib.Core.Path.{subst}
use orca_validator.Prelude.{
  ◌≡◌, refl, sym, ap, ◌∙◌, Bool, false, some, arith, Text, lit, text_eq, text_eq_iff, inl, inr,
  Bool-cases,
}
use orca_validator.Pipeline.Database.{Document, find, replace, find-replace, key-find}
use orca_validator.Pipeline.Environment.{Environment, RunRow}
use orca_validator.Pipeline.Validate.{run_key, document_key, result_of}
use orca_validator.Api.Documents.{Upload, ApiSettings, new_run, new_document}
use orca_validator.Api.Documents.Submission.{accepted, stored}
use orca_validator.Api.Documents.Completion.{floats, State, IsNew}
use orca_validator.System.{
  System, world, Step, submit, take, begin, claim_run, leave, finish_run, die, lose_queued,
  lose_background, elsewhere, Reach, here, next, IsFresh,
}
use orca_validator.System.Rows.{find-added, claim-Claiming, finish-Finishing}
use orca_validator.System.Submitted.{submit_document-cases}
use orca_validator.System.Paired.{IsPaired, IsPaired-Writes}

module _ (env : Environment) (zero one : env.Temperature)
    (lt : env.Temperature → env.Temperature → Bool) (settings : ApiSettings) where
  abbrev HasPairs : State env zero one lt → Type 0
  HasPairs s = IsPaired s.runs s.documents

  -- The document of a run that is written is no other run's.
  foreign :
      (s : State env zero one lt) (r : Text) (run : RunRow env) (k : Text) (x : RunRow env)
      → HasPairs s
      → find (run_key env) r s.runs ≡ some run
      → find (run_key env) k s.runs ≡ some x
      → text_eq r k ≡ false
      → text_eq run.document_id x.document_id ≡ false
  foreign s r run k x p found e other = elim (Bool-cases (text_eq run.document_id x.document_id)) [
    | inr far ↦ far
    | inl near ↦
        let same = p.own r k run x found e ((text_eq_iff run.document_id x.document_id).0 near) in
        absurd (ground (arith, other, (text_eq_iff r k).1 same))
  ]

  HasPairs-stored :
      (u : Upload env.Temperature env.Time) (s : State env zero one lt)
      → IsNew env zero one lt u s
      → HasPairs s
      → HasPairs (stored (floats env zero one lt) env.Time env.Analysis settings u s)
  HasPairs-stored u s new p =
      IsPaired-Writes
        (record {
          run =
              new_run (floats env zero one lt) env.Time env.Analysis s.verified_machines u
                (lit "contract_validation");
          doc =
              new_document (floats env zero one lt) env.Time env.Analysis (lit "api-key-subject") u;
          pairs = refl;
          equal = refl;
          foreign = λ k x e _.
              let (doc, found, _) = p.same k x e in
              elim (Bool-cases (text_eq u.document_id x.document_id)) [
                | inr far ↦ far
                | inl near ↦ absurd (
                    let clash =
                      sym new.no_document
                      ∙ ap (λ i. find (document_key env) i s.documents)
                          ((text_eq_iff u.document_id x.document_id).0 near)
                      ∙ found in
                    cc)
              ];
          find_run = λ k. find-added (run_key env) k _ s.runs new.no_run;
          find_doc = λ i. find-added (document_key env) i _ s.documents new.no_document;
        })
        p

  HasPairs-accepted :
      (u : Upload env.Temperature env.Time) (s : State env zero one lt)
      → IsNew env zero one lt u s
      → HasPairs s
      → HasPairs (accepted (floats env zero one lt) env.Time env.Analysis settings u s)
  HasPairs-accepted u s new p =
      let paired = HasPairs-stored u s new p in
      elim (Bool-cases settings.use_redis_queue) [ inl e ↦ rw e paired | inr e ↦ rw e paired ]

  -- A run and its document are updated with one status.
  HasPairs-updated :
      (s : State env zero one lt) (r : Text) (run run' : RunRow env) (doc doc' : Document)
      → find (run_key env) r s.runs ≡ some run
      → find (document_key env) run.document_id s.documents ≡ some doc
      → run'.id ≡ run.id
      → run'.document_id ≡ run.document_id
      → doc'.id ≡ doc.id
      → doc'.status ≡ run'.status
      → HasPairs s
      → IsPaired (replace (run_key env) run' s.runs) (replace (document_key env) doc' s.documents)
  HasPairs-updated s r run run' doc doc' found has_document i j i' e p =
      let run_i : run'.id ≡ r = i ∙ key-find (run_key env) r run s.runs found in
      let doc_i : doc'.id ≡ run.document_id =
        i' ∙ key-find (document_key env) run.document_id doc s.documents has_document in
      IsPaired-Writes
        (record {
          run = run';
          doc = doc';
          pairs = j ∙ sym doc_i;
          equal = e;
          foreign =
              λ k x found' other. rw doc_i (foreign s r run k x p found found' (rw run_i at other));
          find_run = λ k.
              find-replace (run_key env) k run' run s.runs
                (subst (λ x. find (run_key env) x s.runs ≡ some run) (sym run_i) found);
          find_doc = λ k. find-replace (document_key env) k doc' doc s.documents (
              subst (λ x. find (document_key env) x s.documents ≡ some doc) (sym doc_i)
                has_document);
        })
        p

  HasPairs-Step :
      {s t : System env zero one lt settings}
      → Step env zero one lt settings s t
      → HasPairs s.service
      → HasPairs t.service
  HasPairs-Step (submit s authorization u {response} {service'} new e) p =
      let after = ap (λ x. x.1) e in
      elim (submit_document-cases (floats env zero one lt) env.Time env.Analysis settings
        authorization u s.service) [
          | inl same ↦ let same' = rw after at same in rw (same'.runs, same'.documents) p
          | inr (inl all) ↦
              subst (λ (x : State env zero one lt). HasPairs x) (sym all ∙ after)
                (HasPairs-accepted u s.service new p)
          | inr (inr rows) ↦
              subst (λ (x : State env zero one lt). HasPairs x) (sym rows ∙ after)
                (HasPairs-stored u s.service new p)
        ]
  HasPairs-Step (claim_run s before after r {c} {w} e h) p =
      let c = claim-Claiming env r (world env zero one lt settings s) h in
      rw c.after (
        HasPairs-updated s.service r c.run _ c.doc _ c.ready.has_run c.ready.has_document refl refl
          refl refl p)
  HasPairs-Step (finish_run s before after r l a fsm {x} {w} e h) p =
      elim (finish-Finishing env r l (result_of env r l a fsm) (world env zero one lt settings s)
        h) [
          | inl same ↦ rw same p
          | inr c ↦ rw c.after (
              HasPairs-updated s.service r c.run _ c.doc _ c.has_run c.has_document refl refl refl
                refl p)
        ]
  HasPairs-Step (take s r e) p = p
  HasPairs-Step (begin s before after r e) p = p
  HasPairs-Step (leave s before after r e) p = p
  HasPairs-Step (die s before after r e) p = p
  HasPairs-Step (lose_queued s before after r e) p = p
  HasPairs-Step (lose_background s) p = p
  HasPairs-Step (elsewhere s b o) p = p

  HasPairs-IsFresh :
      (s : System env zero one lt settings)
      → IsFresh env zero one lt settings s
      → HasPairs s.service
  unfolding find
  HasPairs-IsFresh s h =
      rw h.runs (record { same = λ k run e. absurd cc; own = λ k k' run run' e e' h. absurd cc })

  -- From a service to which no document was submitted yet, whatever happened since: each run has a
  -- row of its document, with the same status, and no two runs have the same document.
  pub service-IsPaired :
      {s t : System env zero one lt settings}
      → IsFresh env zero one lt settings s
      → Reach env zero one lt settings s t
      → IsPaired t.service.runs t.service.documents
  service-IsPaired {s} h here = HasPairs-IsFresh s h
  service-IsPaired h (next r st) = HasPairs-Step st (service-IsPaired h r)
