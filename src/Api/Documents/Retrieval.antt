-- ===== src/Api/Documents/Retrieval.antt =====
-- The endpoints that read: status, result and revision.
use orca_validator.Prelude.{
  ◌≡◌, Bool, true, false, not, List, [], ◌∷◌, Option, none, some, arith, Text, Dict, is_empty,
  text_eq, if◌then◌else◌,
}
use orca_validator.Export.Redline.{clean_revision}
use orca_validator.Pipeline.Database.{
  Status, AnalysisStatus, analysis_skipped, AnalysisEntry, no_analysis, FsmReport, Document, Run,
  ValidationResult, find,
}
use orca_validator.Api.Http.{Response, reply, refused}
use orca_validator.Api.Documents.{Service}

pub record StatusResponse : Type 0 where
  pub document_id : Text
  pub run_id : Text
  pub status : Status
  pub doc_type : Text
  pub machine_id : Text

pub record ResultResponse (F Analysis : Type 0) : Type 0 where
  pub run_id : Text
  pub status : Status
  pub ready : Bool
  pub verdict : Option Text
  pub final_state : Option Text
  pub reasons : List (Option Text)
  pub extracted_fields : Dict Bool
  pub document_type : Option Text
  pub machine_id : Option Text
  pub machine_hash : Option Text
  pub temperature : Option F
  pub analysis : AnalysisEntry Analysis
  pub analysis_status : AnalysisStatus
  pub revised_available : Bool
  pub revised_redline : Option Text
  pub document_fsm : Option FsmReport

-- `later a b`: the queue time `a` is after `b`.
module _ {F Time : Type 0} (later : Time → Time → Bool) where
  -- The later of a run and the latest of the others, the first one where the times are equal.
  abbrev pub later_run : Run F Time → Option (Run F Time) → Option (Run F Time)
  later_run r none = some r
  later_run r (some s) = if later s.queued_at r.queued_at then some s else some r

  -- `_latest_run`: of the document's runs, one with the latest queue time
  unfoldable pub latest_run : Text → List (Run F Time) → Option (Run F Time)
  latest_run document_id [] = none
  latest_run document_id (r ∷ runs) =
      let rest = latest_run document_id runs in
      if text_eq r.document_id document_id then later_run r rest else rest

-- `bool(text)` of an optional text
unfoldable pub is_filled : Option Text → Bool
is_filled none = false
is_filled (some t) = not (is_empty t)

-- `text or None`
unfoldable pub text_or_none : Option Text → Option Text
text_or_none t = if is_filled t then t else none

abbrev pub text_or_404 : Option Text → Response Text
text_or_404 none = refused 404
text_or_404 (some t) = if is_empty t then refused 404 else reply t

module _ {F Time : Type 0} where
  abbrev pub status_response : Document → Run F Time → StatusResponse
  status_response d r = record {
    document_id = d.id;
    run_id = r.id;
    status = r.status;
    doc_type = d.doc_type;
    machine_id = r.machine_id;
  }

module _ {Analysis : Type 0} where
  abbrev pub result_key : ValidationResult Analysis → Text
  result_key v = v.run_id

  abbrev pub revised_of : Option (ValidationResult Analysis) → Option Text
  revised_of none = none
  revised_of (some v) = v.revised_markdown

module _ {F Time Analysis : Type 0} where
  -- Not ready: an explicit "still running", never a fabricated result.
  abbrev pub not_ready : Run F Time → ResultResponse F Analysis
  not_ready r = record {
    run_id = r.id;
    status = r.status;
    ready = false;
    verdict = none;
    final_state = none;
    reasons = [];
    extracted_fields = [];
    document_type = none;
    machine_id = none;
    machine_hash = none;
    temperature = none;
    analysis = no_analysis;
    analysis_status = analysis_skipped;
    revised_available = false;
    revised_redline = none;
    document_fsm = none;
  }

  abbrev pub ready_response : Run F Time → ValidationResult Analysis → ResultResponse F Analysis
  ready_response r v = record {
    run_id = r.id;
    status = r.status;
    ready = true;
    verdict = some v.verdict;
    final_state = some v.final_state;
    reasons = v.reasons;
    extracted_fields = v.extracted_fields;
    document_type = some v.document_type;
    machine_id = some r.machine_id;
    machine_hash = some r.machine_hash;
    temperature = some r.temperature;
    analysis = v.analysis;
    analysis_status = v.analysis_status;
    revised_available = is_filled v.revised_markdown;
    revised_redline = text_or_none v.revised_markdown;
    document_fsm = v.document_fsm;
  }

  abbrev pub result_response :
      Run F Time → Option (ValidationResult Analysis) → ResultResponse F Analysis
  result_response r none = not_ready r
  result_response r (some v) = ready_response r v

module _ {F Analysis : Type 0} where
  -- What the download answers, from what the result endpoint answered.
  abbrev pub download_of : Response (ResultResponse F Analysis) → Response Text
  download_of (refused code) = refused code
  download_of (reply r) = elim (r.revised_redline) [
    | none ↦ refused 404
    | some md ↦ reply (clean_revision (some md))
  ]

-- Each of these endpoints reads twice, and a transaction may be committed in between: `s` is what the
-- first SELECT finds, and `t` what the second one finds.
module _ {F Time Analysis : Type 0} (later : Time → Time → Bool) where
  -- `get_document`
  unfoldable pub get_document :
      Text → Service F Time Analysis → Service F Time Analysis → Response StatusResponse
  get_document document_id s t = elim (find (λ d. d.id) document_id s.documents) [
    | none ↦ refused 404
    | some d ↦ elim (latest_run later document_id t.runs) [
      | none ↦ refused 404
      | some r ↦ reply (status_response d r)
    ]
  ]

  -- `get_result`
  unfoldable pub get_result :
      Text
      → Service F Time Analysis
      → Service F Time Analysis
      → Response (ResultResponse F Analysis)
  get_result document_id s t = elim (latest_run later document_id s.runs) [
    | none ↦ refused 404
    | some r ↦ reply (result_response r (find result_key r.id t.results))
  ]

  -- `_revised_or_404`
  unfoldable pub revised_or_404 :
      Text → Service F Time Analysis → Service F Time Analysis → Response Text
  revised_or_404 document_id s t = elim (latest_run later document_id s.runs) [
    | none ↦ refused 404
    | some r ↦ text_or_404 (revised_of (find result_key r.id t.results))
  ]

  -- `download_revised_md`: the accepted version
  unfoldable pub download_revised_md :
      Text → Service F Time Analysis → Service F Time Analysis → Response Text
  download_revised_md document_id s t = elim (revised_or_404 document_id s t) [
    | reply md ↦ reply (clean_revision (some md))
    | refused code ↦ refused code
  ]

  -- Where its two reads find what the result endpoint's find: the download answers with the accepted
  -- version of the very redline that the result endpoint shows, and with its code, or 404, where that
  -- endpoint shows none.
  pub download_revised_md_lem :
      (document_id : Text) (s t : Service F Time Analysis)
      → download_revised_md document_id s t ≡ download_of (get_result document_id s t)
  unfolding download_revised_md get_result revised_or_404 text_or_none is_filled
  download_revised_md_lem document_id s t = ground arith
