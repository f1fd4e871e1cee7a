-- ===== src/Pipeline/Database.antt =====
-- backend/models/__init__.py: the rows of documents, validation_runs and validation_results. A UUID
-- is its canonical text. An update writes the row that has the same key.
use mathlib.Core.Path.{subst}
use orca_validator.Prelude.{
  ◌≡◌, Bool, List, [], ◌∷◌, Option, none, some, arith, Text, text_eq, text_eq_iff, Dict,
  if◌then◌else◌,
}

-- uploaded → queued → running → done or failed
pub data Status : Type 0 where
  uploaded queued running done failed : Status

pub data AnalysisStatus : Type 0 where
  analysis_done analysis_skipped analysis_error analysis_budget_exceeded : AnalysisStatus

-- The column `analysis`: `{}`, an analysis, or `{"error": …}`.
pub data AnalysisEntry (A : Type 0) : Type 0 where
  no_analysis : AnalysisEntry A
  analysed : A → AnalysisEntry A
  analysis_failed : Text → AnalysisEntry A

-- The column `document_fsm`, where it is not `{}`.
pub record FsmReport : Type 0 where
  pub orca_md : Option Text
  pub mermaid : Option Text
  pub verified : Bool
  pub report : Text

pub record Document : Type 0 where
  pub id : Text
  pub owner : Text
  pub doc_type : Text
  pub filename : Text
  pub blob_ref : Text
  pub status : Status

pub record Run (Temperature Time : Type 0) : Type 0 where
  pub id : Text
  pub document_id : Text
  pub machine_id : Text
  pub machine_version : Text
  pub machine_hash : Text
  pub temperature : Temperature
  pub status : Status
  pub error : Option Text
  pub queued_at : Time
  pub started_at : Option Time
  pub finished_at : Option Time

-- `document_type` is the one entry of the column `machine_context`.
pub record ValidationResult (Analysis : Type 0) : Type 0 where
  pub run_id : Text
  pub verdict : Text
  pub final_state : Text
  pub reasons : List (Option Text)
  pub extracted_fields : Dict Bool
  pub document_type : Text
  pub analysis : AnalysisEntry Analysis
  pub revised_markdown : Option Text
  pub analysis_status : AnalysisStatus
  pub document_fsm : Option FsmReport

module _ {A : Type 0} (key : A → Text) where
  -- `select(…).where(key == k)`, the first row
  unfoldable pub find : Text → List A → Option A
  find k [] = none
  find k (a ∷ rows) = if text_eq (key a) k then some a else find k rows

  -- The rows after a row was written.
  unfoldable pub replace : A → List A → List A
  replace r [] = []
  replace r (a ∷ rows) = if text_eq (key a) (key r) then r ∷ rows else a ∷ replace r rows

  pub find-replace :
      (k : Text) (r old : A) (rows : List A)
      → find (key r) rows ≡ some old
      → find k (replace r rows) ≡ (if text_eq (key r) k then some r else find k rows)
  unfolding find replace
  find-replace k r old [] h = ground arith
  find-replace k r old (a ∷ rows) h = ground (
    arith,
    find-replace k r old rows,
    text_eq_iff (key a) k,
    text_eq_iff (key a) (key r),
    text_eq_iff (key r) k,
  )

  -- The row that is found has the key that was asked for.
  pub key-find : (k : Text) (r : A) (rows : List A) → find k rows ≡ some r → key r ≡ k
  unfolding find
  key-find k r [] h = ground arith
  key-find k r (a ∷ rows) h = ground (arith, key-find k r rows, text_eq_iff (key a) k)

  pub find-replace_at :
      (k id : Text) (r old : A) (rows : List A)
      → key r ≡ id
      → find id rows ≡ some old
      → find k (replace r rows) ≡ (if text_eq id k then some r else find k rows)
  find-replace_at k id r old rows e =
      subst
        (λ i.
          find i rows ≡ some old
          → find k (replace r rows) ≡ (if text_eq i k then some r else find k rows))
        e (find-replace k r old rows)
