-- ===== src/App/Routes/Unauthorized.antt =====
-- Whoever lacks the key learns nothing of the documents and the visits, and changes nothing.
use orca_validator.Prelude.{
  ◌≡◌, refl, ℕ, ◌++◌, Bool, false, List, Text, lit, is_empty, text_eq, inl, inr, Bool-cases, ◌&&◌,
}
use orca_validator.Api.Http.{refused, require_api_key, compare_digest, is_ascii}
use orca_validator.Api.Documents.{Float, Upload, Service, ApiSettings, submit_document}
use orca_validator.Api.Machines.{Compiler}
use orca_validator.Api.Visits.{Visit, record_visit, list_visits}
use orca_validator.App.Routes.{
  Call, post_document, status_of, result_of, markdown_of, word_of, all_machines, one_machine,
  post_visit, visit_page, Backend, handle, is_public,
}

-- Without the key the dependency refuses.
require_api_key-refused :
    (api_key authorization : Text)
    → text_eq authorization (lit "Bearer " ++ api_key) ≡ false
    → (code : ℕ) × (require_api_key api_key authorization ≡ refused code)
unfolding require_api_key compare_digest
require_api_key-refused api_key authorization h = elim (Bool-cases (is_empty authorization)) [
  | inl e ↦ rw e (401, refl)
  | inr e ↦ elim (Bool-cases (is_ascii authorization && is_ascii (lit "Bearer " ++ api_key))) [
    | inl both ↦ (401, rw (e, both, h) refl)
    | inr not_both ↦ (500, rw (e, not_both) refl)
  ]
]

module _ (fl : Float) (Time Analysis : Type 0) (later : Time → Time → Bool)
    (newest_first : List (Visit Time) → List (Visit Time)) (compiler : Compiler)
    (settings : ApiSettings) where
  submit_document-refused :
      (authorization : Text) (code : ℕ) (u : Upload fl.F Time) (s : Service fl.F Time Analysis)
      → require_api_key settings.api_key authorization ≡ refused code
      → submit_document fl Time Analysis settings authorization u s ≡ (refused code, s)
  unfolding submit_document
  submit_document-refused authorization code u s h = rw (h, submit_document) refl

  -- The answer where the dependency refuses, and the state.
  handle-refused :
      (authorization : Text) (code : ℕ) (call : Call fl.F Time)
      (b b' c c' : Backend fl.F Time Analysis)
      → require_api_key settings.api_key authorization ≡ refused code
      → is_public fl Time Analysis later newest_first compiler settings call ≡ false
      → ((handle fl Time Analysis later newest_first compiler settings authorization call b b').0
          ≡ (handle fl Time Analysis later newest_first compiler settings authorization call c
              c').0)
        × ((handle fl Time Analysis later newest_first compiler settings authorization call b b').1
            ≡ b)
  unfolding handle record_visit list_visits
  handle-refused authorization code (post_document u) b b' c c' h p =
      rw
        (
          submit_document-refused authorization code u b.service h,
          submit_document-refused authorization code u c.service h,
        )
        (refl, refl)
  handle-refused authorization code (status_of id) b b' c c' h p = rw h (refl, refl)
  handle-refused authorization code (result_of id) b b' c c' h p = rw h (refl, refl)
  handle-refused authorization code (markdown_of id) b b' c c' h p = rw h (refl, refl)
  handle-refused authorization code (word_of id) b b' c c' h p = rw h (refl, refl)
  handle-refused authorization code all_machines b b' c c' h p = cc
  handle-refused authorization code (one_machine id) b b' c c' h p = cc
  handle-refused authorization code (post_visit body now) b b' c c' h p = rw h (refl, refl)
  handle-refused authorization code (visit_page limit app_only) b b' c c' h p = rw h (refl, refl)

  -- A request whose header is not "Bearer " and the key, to any endpoint of the documents and the
  -- visits: the answer is the same whatever documents, runs, results and visits its reads find, and
  -- nothing that is stored, queued or scheduled changes.
  pub handle-unauthorized :
      (authorization : Text) (call : Call fl.F Time) (b b' c c' : Backend fl.F Time Analysis)
      → text_eq authorization (lit "Bearer " ++ settings.api_key) ≡ false
      → is_public fl Time Analysis later newest_first compiler settings call ≡ false
      → ((handle fl Time Analysis later newest_first compiler settings authorization call b b').0
          ≡ (handle fl Time Analysis later newest_first compiler settings authorization call c
              c').0)
        × ((handle fl Time Analysis later newest_first compiler settings authorization call b b').1
            ≡ b)
  handle-unauthorized authorization call b b' c c' lacks p =
      let (code, e) = require_api_key-refused settings.api_key authorization lacks in
      handle-refused authorization code call b b' c c' e p
