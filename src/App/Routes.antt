-- ===== src/App/Routes.antt =====
-- The routers that backend/app/main.py includes: the endpoints of documents, machines and visits with
-- their dependency on the key (backend/api). The probe is in Health.
pub mod Unauthorized
use orca_validator.Prelude.{
  ◌⊎◌, ◌≡◌, refl, sym, ap, ◌∙◌, ℕ, ◌++◌, Bool, true, false, List, [], ◌∷◌, Option, none, some,
  arith, Text, lit, Dict, is_empty, text_eq, inl, inr, Bool-cases, if◌then◌else◌, ◌&&◌,
}
use orca_validator.Export.Docx.{Block}
use orca_validator.Api.Http.{
  Response, reply, refused, require_api_key, compare_digest, is_ascii, subject_or_refuse,
}
use orca_validator.Api.Documents.{
  Float, Upload, ApiSettings, SubmitResponse, Service, submit_document,
}
use orca_validator.Api.Documents.Retrieval.{
  StatusResponse, ResultResponse, get_document, get_result, download_revised_md,
}
use orca_validator.Api.Documents.Word.{download_revised_docx}
use orca_validator.Api.Machines.{MachineSummary, MachineView, Compiler, list_machines, get_machine}
use orca_validator.Api.Visits.{ℤ, Visit, VisitIn, VisitPage, behind, record_visit, list_visits}

-- A request, with the parameters that its handler takes.
pub data Call (F Time : Type 0) : Type 0 where
  post_document : Upload F Time → Call F Time
  status_of result_of markdown_of word_of : Text → Call F Time
  all_machines : Call F Time
  one_machine : Text → Call F Time
  post_visit : VisitIn → Time → Call F Time
  visit_page : ℤ → Bool → Call F Time

pub data Answer (F Time Analysis : Type 0) : Type 0 where
  submitted : Response SubmitResponse → Answer F Time Analysis
  status : Response StatusResponse → Answer F Time Analysis
  result : Response (ResultResponse F Analysis) → Answer F Time Analysis
  markdown : Response Text → Answer F Time Analysis
  word : Response (List Block) → Answer F Time Analysis
  machines : List MachineSummary → Answer F Time Analysis
  machine : Response MachineView → Answer F Time Analysis
  recorded : Response (Unit {0}) → Answer F Time Analysis
  page : Response (VisitPage Time) → Answer F Time Analysis

pub record Backend (F Time Analysis : Type 0) : Type 0 where
  pub service : Service F Time Analysis
  pub visits : List (Visit Time)

-- A handler that is called only with a subject.
abbrev pub guarded : {A : Type 0} → Response Text → Response A → Response A
guarded (reply subject) answer = answer
guarded (refused code) answer = refused code

-- The table after a visit, and what is answered.
abbrev pub after_visit : {A : Type 0} → A → Response A → Response (Unit {0}) × A
after_visit old (reply new) = (reply tt, new)
after_visit old (refused code) = (refused code, old)

module _ (fl : Float) (Time Analysis : Type 0) (later : Time → Time → Bool)
    (newest_first : List (Visit Time) → List (Visit Time)) (compiler : Compiler)
    (settings : ApiSettings) where
  -- A request with what the endpoint finds: the endpoints that read look into the database twice, and
  -- the second backend is what the second read finds. The backend that comes back is the first one
  -- with what the request itself writes.
  unfoldable pub handle :
      Text
      → Call fl.F Time
      → Backend fl.F Time Analysis
      → Backend fl.F Time Analysis
      → Answer fl.F Time Analysis × Backend fl.F Time Analysis
  unfolding require_api_key submit_document get_document get_result download_revised_md
      download_revised_docx list_machines get_machine record_visit list_visits
  handle authorization (post_document u) b c =
      let (r, s) = submit_document fl Time Analysis settings authorization u b.service in
      (submitted r, record b { service = s })
  handle authorization (status_of id) b c = (
    status (
        guarded (require_api_key settings.api_key authorization)
          (get_document later id b.service c.service)),
    b,
  )
  handle authorization (result_of id) b c = (
    result (
        guarded (require_api_key settings.api_key authorization)
          (get_result later id b.service c.service)),
    b,
  )
  handle authorization (markdown_of id) b c = (
    markdown (
        guarded (require_api_key settings.api_key authorization)
          (download_revised_md later id b.service c.service)),
    b,
  )
  handle authorization (word_of id) b c = (
    word (
        guarded (require_api_key settings.api_key authorization)
          (download_revised_docx later id b.service c.service)),
    b,
  )
  handle authorization all_machines b c = (machines (list_machines b.service.verified_machines), b)
  handle authorization (one_machine id) b c =
      (machine (get_machine compiler b.service.verified_machines id), b)
  handle authorization (post_visit body now) b c =
      let (r, visits) =
        after_visit b.visits (record_visit settings.api_key authorization body now b.visits) in
      (recorded r, record b { visits = visits })
  handle authorization (visit_page limit app_only) b c =
      (page (list_visits newest_first settings.api_key authorization limit app_only b.visits), b)

  -- What the backend shows to everybody.
  abbrev pub is_public : Call fl.F Time → Bool
  is_public all_machines = true
  is_public (one_machine id) = true
  is_public call = false
