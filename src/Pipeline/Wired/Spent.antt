-- ===== src/Pipeline/Wired/Spent.antt =====
-- What becomes of a run when the tokens of the day are spent.
use orca_validator.Prelude.{
  ◌≡◌, ◌≢◌, ◌<◌, ◌≤◌, refl, ap, ◌∙◌, true, false, [], ◌∷◌, ◌++◌, some, Text, lit, any, ℕ, ok, err,
  budget_exceeded, text_eq, text_eq_refl, Result,
}
use orca_validator.Ocr.Result.{is_ok}
use orca_validator.Ocr.Service.{parse_document}
use orca_validator.Orca.Bridge.Steps.{IsFresh}
use orca_validator.Llm.Budget.{usage_key, over_budget}
use orca_validator.Llm.Chat.{Together, ChatSettings, chat_spent}
use orca_validator.Llm.Classification.{Parsed, classify_request, classify_and_check_fields}
use orca_validator.Pipeline.Database.{Document, failed, find}
use orca_validator.Pipeline.Environment.{Settings, World, RunRow, ResultRow}
use orca_validator.Pipeline.Validate.{claim_of, run_key, run_validation, final_status}
use orca_validator.Pipeline.Validate.Runs.{IsReady}
use orca_validator.Pipeline.Validate.Completion.{run_validation-Completed}
use orca_validator.Pipeline.Validate.Judged.{machine_key}
use orca_validator.Pipeline.Validate.Unclassified.{judge-Raised}
use orca_validator.Pipeline.Wired.{Platform, wired}

-- The tokens of the day have reached a budget that is set, and Redis says so.
pub record IsSpent (ai : Together) (settings : ChatSettings) (used : ℕ) (o o' : ai.redis.Outside)
    : Type 0 where
  pub key : settings.together_api_key ≢ []
  pub limited : 0 < settings.daily_token_budget
  pub reached : settings.daily_token_budget ≤ used
  pub reads : ai.redis.get (usage_key ai.redis o) o ≡ (ok (some used), o')

classify_spent :
    (ai : Together) (settings : ChatSettings) (parse : Text → Parsed) (text : Text)
    (temperature : ai.F) (used : ℕ) (o o' : ai.redis.Outside)
    → IsSpent ai settings used o o'
    → classify_and_check_fields ai settings parse text temperature o
      ≡ (err (budget_exceeded (over_budget ai.redis used settings.daily_token_budget)), o')
unfolding classify_and_check_fields
classify_spent ai settings parse text temperature used o o' h =
    rw
      (chat_spent ai settings (classify_request ai text temperature) o o' used h.key h.limited
        h.reached h.reads)
      refl

module _ (p : Platform) where
  -- What the call leaves: an error, with the budget's message as the reason, and a failed run.
  pub record Aborted (run_id : Text) (used : ℕ) (w : World (wired p))
      (out : Result (Unit {0}) × World (wired p)) : Type 0 where
    pub res : ResultRow (wired p)
    pub run : RunRow (wired p)
    pub returns : out.0 ≡ ok tt
    pub stored : out.1.results ≡ w.results ++ res ∷ []
    pub verdict : res.verdict ≡ lit "error"
    pub reasons :
        res.reasons ≡ some (over_budget p.ai.redis used p.chat_settings.daily_token_budget) ∷ []
    pub row : find (run_key (wired p)) run_id out.1.runs ≡ some run
    pub status : run.status ≡ failed

  -- With the modelled collaborators in their places: where a model is set and the tokens of the day
  -- are spent, a run on a contract that can be claimed, has no result yet, whose machine is new and
  -- whose text can be read does not get the machine's verdict: it gets the verdict "error" with the
  -- budget's message as its reason, and is stored as failed.
  pub run_validation_spent :
      (settings : Settings) (run_id : Text) (w : World (wired p)) (run : RunRow (wired p))
      (doc : Document) (used : ℕ) (o' : p.ai.redis.Outside)
      → IsReady (wired p) run_id w run doc
      → any (λ (r : ResultRow (wired p)). text_eq r.run_id run_id) w.results ≡ false
      → doc.doc_type ≡ lit "contract"
      → settings.together_api_key ≢ []
      → IsFresh p.runtime (machine_key (wired p) (claim_of (wired p) run_id run doc)) w.bridge
      → is_ok (
          parse_document p.libraries p.client
            (p.files w.outside)
            (p.blob_path doc.blob_ref)
            settings.ocr_dpi)
        ≡ true
      → IsSpent p.ai p.chat_settings used w.outside o'
      → Aborted run_id used w (run_validation (wired p) settings run_id w)
  run_validation_spent settings run_id w run doc used o' ready unique contract key fresh readable
        spent =
      let done = run_validation-Completed (wired p) settings run_id w ready unique in
      let c = claim_of (wired p) run_id run doc in
      let ocr =
        parse_document p.libraries p.client (p.files w.outside) (p.blob_path doc.blob_ref)
          settings.ocr_dpi in
      let raising =
        judge-Raised (wired p) settings c w.bridge w.outside w.outside o' ocr _ contract key fresh
          refl readable
          (classify_spent p.ai p.chat_settings p.parse_answer ocr.raw_text c.temperature used
            w.outside o' spent) in
      let verdict = done.judged.verdict ∙ raising.verdict in
      record {
        res = done.res;
        run = done.run;
        returns = done.returns;
        stored = done.results;
        verdict = verdict;
        reasons = done.judged.reasons ∙ raising.reasons;
        row = done.runs run_id ∙ rw (text_eq_refl run_id) refl;
        status = done.run_status ∙ ap final_status verdict;
      }
