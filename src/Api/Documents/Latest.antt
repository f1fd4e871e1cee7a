-- ===== src/Api/Documents/Latest.antt =====
-- The run that the reading endpoints answer with.
use orca_validator.Prelude.{
  any, ◌&&◌, text_eq_iff, inl, inr, Bool-cases, ◌≡◌, refl, Bool, true, false, List, [], ◌∷◌, Option,
  none, some, arith, Text, text_eq, if◌then◌else◌,
}
use orca_validator.Pipeline.Database.{Run}
use orca_validator.Api.Documents.Retrieval.{later_run, latest_run}

later_irrefl :
    {Time : Type 0} (later : Time → Time → Bool)
    → ((a b : Time) → later a b ≡ true → later b a ≡ false)
    → (t : Time) → later t t ≡ false
later_irrefl later asym t = elim (Bool-cases (later t t)) [ inl e ↦ asym t t e | inr e ↦ e ]

-- Queue times are ordered: of two, not both are after the other, and what is not after a time is
-- not after one that this time is not after.
module _ {F Time : Type 0} (later : Time → Time → Bool)
    (asym : (a b : Time) → later a b ≡ true → later b a ≡ false)
    (chain : (a b c : Time) → later a b ≡ false → later b c ≡ false → later a c ≡ false) where
  -- No run of the document is after a time.
  unfoldable pub none_after : Text → Time → List (Run F Time) → Bool
  none_after document_id t [] = true
  none_after document_id t (r ∷ runs) =
      let rest = none_after document_id t runs in
      if text_eq r.document_id document_id && later r.queued_at t then false else rest

  none_after_chain :
      (document_id : Text) (t u : Time) (runs : List (Run F Time))
      → later t u ≡ false
      → none_after document_id t runs ≡ true
      → none_after document_id u runs ≡ true
  unfolding none_after
  none_after_chain document_id t u [] h k = refl
  none_after_chain document_id t u (r ∷ runs) h k =
      ground (arith, none_after_chain document_id t u runs, chain r.queued_at t u)

  -- The run an endpoint answers with is the document's, and none of the document's runs was queued
  -- after it; where there is no such run, the document has none.
  abbrev pub IsLatest : Text → List (Run F Time) → Option (Run F Time) → Type 0
  IsLatest document_id runs none =
      any (λ (r : Run F Time). text_eq r.document_id document_id) runs ≡ false
  IsLatest document_id runs (some r) =
      (r.document_id ≡ document_id) × (none_after document_id r.queued_at runs ≡ true)

  none_after-none :
      (document_id : Text) (t : Time) (runs : List (Run F Time))
      → any (λ (r : Run F Time). text_eq r.document_id document_id) runs ≡ false
      → none_after document_id t runs ≡ true
  unfolding none_after
  none_after-none document_id t [] h = refl
  none_after-none document_id t (r ∷ runs) h = ground (arith, none_after-none document_id t runs)

  IsLatest-later_run :
      (document_id : Text) (r : Run F Time) (runs : List (Run F Time)) (rest : Option (Run F Time))
      → r.document_id ≡ document_id
      → IsLatest document_id runs rest
      → IsLatest document_id (r ∷ runs) (later_run later r rest)
  unfolding none_after
  IsLatest-later_run document_id r runs none e h = (
    e,
    ground (
      arith,
      later_irrefl later asym r.queued_at,
      none_after-none document_id r.queued_at runs h,
    ),
  )
  IsLatest-later_run document_id r runs (some s) e h =
      elim (Bool-cases (later s.queued_at r.queued_at)) [
        | inl after ↦ rw after (h.0, ground (arith, asym s.queued_at r.queued_at after, h.1))
        | inr before ↦ rw before (
          e,
          ground (
            arith,
            later_irrefl later asym r.queued_at,
            none_after_chain document_id s.queued_at r.queued_at runs before h.1,
          ),
        )
      ]

  IsLatest-other :
      (document_id : Text) (r : Run F Time) (runs : List (Run F Time)) (rest : Option (Run F Time))
      → text_eq r.document_id document_id ≡ false
      → IsLatest document_id runs rest
      → IsLatest document_id (r ∷ runs) rest
  unfolding none_after
  IsLatest-other document_id r runs none e h = ground (arith, h)
  IsLatest-other document_id r runs (some s) e h = (h.0, ground (arith, h.1))

  -- Where the queue times are ordered: the run that the endpoints answer with is one of the
  -- document, and no run of the document was queued after it; there is none only where the document
  -- has no run.
  pub latest_run-IsLatest :
      (document_id : Text) (runs : List (Run F Time))
      → IsLatest document_id runs (latest_run later document_id runs)
  unfolding latest_run
  latest_run-IsLatest document_id [] = refl
  latest_run-IsLatest document_id (r ∷ runs) =
      let rest = latest_run-IsLatest document_id runs in
      elim (Bool-cases (text_eq r.document_id document_id)) [
        | inl own ↦ rw own (
            IsLatest-later_run document_id r runs (latest_run later document_id runs)
              ((text_eq_iff r.document_id document_id).0 own) rest)
        | inr other ↦
            rw other
              (IsLatest-other document_id r runs (latest_run later document_id runs) other rest)
      ]
