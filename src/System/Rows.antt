-- ===== src/System/Rows.antt =====
-- The rows, the queue and the tasks of one run, as each operation leaves them.
use orca_validator.Prelude.{
  ◌⊎◌, ◌+◌, ◌≡◌, refl, sym, ap, ◌∙◌, List, [], ◌∷◌, ◌++◌, none, some, arith, Text, text_eq,
  text_eq_iff, if◌then◌else◌, any, Result, ok, inl, inr, Bool-cases, Option-cases,
}
use orca_validator.Pipeline.Database.{Document, ValidationResult, find}
use orca_validator.Pipeline.Environment.{Environment, World, RunRow, ResultRow}
use orca_validator.Pipeline.Worker.Bounded.{count, count-append}
use orca_validator.Pipeline.Validate.Body.{Claim, Locals}
use orca_validator.Pipeline.Validate.{
  run_key, document_key, is_taken, claim, claimed, finish, finished,
}
use orca_validator.Pipeline.Validate.Runs.{IsReady, claim-IsReady, taken-IsClosed}

-- A task leaves the list that it stands in.
pub count-removed :
    (k r : Text) (all before after : List Text)
    → all ≡ before ++ r ∷ after
    → count k all ≡ (if text_eq r k then 1 else 0) + count k (before ++ after)
count-removed k r all before after e =
    omega (arith, ap (count k) e, count-append k before (r ∷ after), count-append k before after)

module _ {A : Type 0} (key : A → Text) where
  -- A row that is added is found by its key, where no row had it, and by no other key.
  pub find-added :
      (k : Text) (r : A) (rows : List A)
      → find key (key r) rows ≡ none
      → find key k (rows ++ r ∷ []) ≡ (if text_eq (key r) k then some r else find key k rows)
  unfolding find
  find-added k r [] h = refl
  find-added k r (a ∷ rows) h = ground (
    arith,
    find-added k r rows,
    text_eq_iff (key a) k,
    text_eq_iff (key a) (key r),
    text_eq_iff (key r) k,
  )

-- The verdicts that are stored for a run.
abbrev pub verdicts_at : {A : Type 0} → Text → List (ValidationResult A) → List Text
verdicts_at k [] = []
verdicts_at k (r ∷ results) =
    if text_eq r.run_id k then r.verdict ∷ verdicts_at k results else verdicts_at k results

pub verdicts_at-added :
    {A : Type 0} (k : Text) (r : ValidationResult A) (results : List (ValidationResult A))
    → verdicts_at k (results ++ r ∷ [])
      ≡ verdicts_at k results ++ (if text_eq r.run_id k then r.verdict ∷ [] else [])
verdicts_at-added k r [] = refl
verdicts_at-added k r (x ∷ results) = elim (Bool-cases (text_eq x.run_id k)) [
  | inl e ↦ rw e (ap (λ vs. x.verdict ∷ vs) (verdicts_at-added k r results))
  | inr e ↦ rw e (verdicts_at-added k r results)
]

module _ (env : Environment) where
  -- What the first transaction found when it claimed a run.
  pub record Claiming (r : Text) (w w' : World env) : Type 0 where
    pub run : RunRow env
    pub doc : Document
    pub ready : IsReady env r w run doc
    pub after : w' ≡ claimed env run doc w

  pub claim-Claiming :
      (r : Text) {c : Claim env} (w : World env) {w' : World env}
      → claim env r w ≡ (ok (some c), w')
      → Claiming r w w'
  unfolding claim
  claim-Claiming r w e = elim (Option-cases (find (run_key env) r w.runs)) [
    | inl gone ↦ absurd (cc (rw (gone, claim) at e))
    | inr (run, found) ↦ elim (Bool-cases (is_taken run.status)) [
      | inl taken ↦ absurd (cc (sym (taken-IsClosed env r w found taken) ∙ e))
      | inr open_ ↦ elim (Option-cases (find (document_key env) run.document_id w.documents)) [
        | inl lost ↦ absurd (cc (rw (lost, claim) at (rw open_ at (rw (found, claim) at e))))
        | inr (doc, has_document) ↦
            let ready : IsReady env r w run doc = record {
              has_run = found;
              is_open = open_;
              has_document = has_document;
            } in
            record {
              run = run;
              doc = doc;
              ready = ready;
              after = sym (ap (λ x. x.1) (sym (claim-IsReady env r w ready) ∙ e));
            }
      ]
    ]
  ]

  -- What the last transaction found when it wrote its rows.
  pub record Finishing (r : Text) (l : Locals env) (res : ResultRow env) (w w' : World env)
      : Type 0 where
    pub run : RunRow env
    pub doc : Document
    pub has_run : find (run_key env) r w.runs ≡ some run
    pub has_document : find (document_key env) run.document_id w.documents ≡ some doc
    pub after : w' ≡ finished env run doc l res w

  pub finish-Finishing :
      (r : Text) (l : Locals env) (res : ResultRow env) {x : Result (Unit {0})} (w : World env)
      {w' : World env}
      → finish env r l res w ≡ (x, w')
      → (w' ≡ w) ⊎ Finishing r l res w w'
  unfolding finish
  finish-Finishing r l res w e = elim (Option-cases (find (run_key env) r w.runs)) [
    | inl gone ↦ inl (sym (ap (λ y. y.1) (rw (gone, finish) at e)))
    | inr (run, found) ↦ elim (Option-cases (find (document_key env) run.document_id w.documents)) [
      | inl lost ↦ inl (sym (ap (λ y. y.1) (rw (lost, finish) at (rw (found, finish) at e))))
      | inr (doc, has_document) ↦
          elim (Bool-cases (any (λ (x : ResultRow env). text_eq x.run_id r) w.results)) [
            | inl stored ↦ inl (
                sym (
                  ap (λ y. y.1)
                    (rw stored at (rw (has_document, finish) at (rw (found, finish) at e)))))
            | inr unique ↦ inr (record {
              run = run;
              doc = doc;
              has_run = found;
              has_document = has_document;
              after = sym (
                  ap (λ y. y.1)
                    (rw unique at (rw (has_document, finish) at (rw (found, finish) at e))));
            })
          ]
    ]
  ]
