-- ===== src/System/Paired.antt =====
-- A run and its document have the same status.
use orca_validator.Prelude.{
  ◌⊎◌, ◌≡◌, refl, sym, ap, ◌∙◌, false, List, some, arith, Text, text_eq, text_eq_iff, text_eq_refl,
  if◌then◌else◌, inl, inr, Bool-cases,
}
use orca_validator.Pipeline.Database.{Document, Run, find}

abbrev pub document_id : Document → Text
document_id d = d.id

module _ {F Time : Type 0} where
  abbrev pub run_id : Run F Time → Text
  run_id r = r.id

  -- Each run has a row of its document, with its status, and no two runs have one document.
  pub record IsPaired (runs : List (Run F Time)) (documents : List Document) : Type 0 where
    pub same :
        (k : Text) (run : Run F Time)
        → find run_id k runs ≡ some run
        → (doc : Document) × (find document_id run.document_id documents ≡ some doc)
          × (doc.status ≡ run.status)
    pub own :
        (k k' : Text) (run run' : Run F Time)
        → find run_id k runs ≡ some run
        → find run_id k' runs ≡ some run'
        → run.document_id ≡ run'.document_id
        → k ≡ k'

  -- A run and its document are written with one status, and the document is no other run's.
  pub record Writes (runs runs' : List (Run F Time)) (documents documents' : List Document)
      : Type 0 where
    pub run : Run F Time
    pub doc : Document
    pub pairs : run.document_id ≡ doc.id
    pub equal : doc.status ≡ run.status
    pub foreign :
        (k : Text) (x : Run F Time)
        → find run_id k runs ≡ some x
        → text_eq run.id k ≡ false
        → text_eq doc.id x.document_id ≡ false
    pub find_run :
        (k : Text)
        → find run_id k runs' ≡ (if text_eq run.id k then some run else find run_id k runs)
    pub find_doc :
        (i : Text)
        → find document_id i documents'
          ≡ (if text_eq doc.id i then some doc else find document_id i documents)

  module _ {runs runs' : List (Run F Time)} {documents documents' : List Document}
      (w : Writes runs runs' documents documents') where
    -- A row is the one that was written, or an old one.
    written :
        (k : Text) (x : Run F Time)
        → find run_id k runs' ≡ some x
        → ((w.run.id ≡ k) × (w.run ≡ x))
          ⊎ ((find run_id k runs ≡ some x) × (text_eq w.doc.id x.document_id ≡ false))
    written k x e = elim (Bool-cases (text_eq w.run.id k)) [
      | inl own ↦
          inl ((text_eq_iff w.run.id k).0 own, (let h = rw own at (sym (w.find_run k) ∙ e) in cc))
      | inr other ↦
          let old : find run_id k runs ≡ some x = rw other at (sym (w.find_run k) ∙ e) in
          inr (old, w.foreign k x old other)
    ]

    -- The document of an old run is not the one that was written.
    apart :
        {A : Type 0} (x : Run F Time)
        → text_eq w.doc.id x.document_id ≡ false
        → w.run.document_id ≡ x.document_id
        → A
    apart x h e =
        absurd (ground (arith, h, (text_eq_iff w.doc.id x.document_id).1 (sym w.pairs ∙ e)))

    pub IsPaired-Writes : IsPaired runs documents → IsPaired runs' documents'
    IsPaired-Writes p = record {
      same = λ k x e. elim (written k x e) [
        | inl (_, own) ↦
            rw (sym own)
              (w.doc, w.find_doc w.run.document_id ∙ rw (w.pairs) (rw text_eq_refl refl), w.equal)
        | inr (old, far) ↦
            let (d, found, equal) = p.same k x old in
            (d, w.find_doc x.document_id ∙ rw far found, equal)
      ];
      own = λ k k' x x' e e' h. elim (written k x e) [
        | inl (i, own) ↦ elim (written k' x' e') [
          | inl (i', own') ↦ sym i ∙ i'
          | inr (old, far) ↦ apart x' far (ap (λ (r : Run F Time). r.document_id) own ∙ h)
        ]
        | inr (old, far) ↦ elim (written k' x' e') [
          | inl (_, own) ↦ apart x far (ap (λ (r : Run F Time). r.document_id) own ∙ sym h)
          | inr (old', _) ↦ p.own k k' x x' old old' h
        ]
      ];
    }
