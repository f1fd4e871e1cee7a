-- ===== src/Llm/Chat.antt =====
-- backend/llm/together.py, _chat: one call of the chat endpoint.
use orca_validator.Prelude.{
  ℕ, Bool, ◌≡◌, ◌<◌, ◌≤◌, refl, arith, some, if◌then◌else◌, Text, lit, is_empty, Failure, raised,
  budget_exceeded, Result, ok, err, ◌≢◌, [], true, false, Exec, raise, lift, ◌>>=◌, ◌>>◌, leb, ◌==◌,
}
use orca_validator.Llm.Budget.{Redis, check_budget, record_usage, usage_key, over_budget}

-- The parts of a request that the callers choose.
pub record Request (F : Type 0) : Type 0 where
  pub system : Text
  pub user : Text
  pub max_tokens : ℕ
  pub temperature : F
  pub response_json : Bool

-- What the endpoint answers: the tokens that it reports, and the content, or the exception where
-- the answer has none.
pub record Completion : Type 0 where
  pub total_tokens : ℕ
  pub content : Result Text

-- The endpoint; it raises where the connection or the status does.
pub record Together : Type 1 where
  pub redis : Redis
  pub F : Type 0
  pub post : Request F → Exec redis.Outside Completion

pub record ChatSettings : Type 0 where
  pub together_api_key : Text
  pub daily_token_budget : ℕ

abbrev pub no_key : Failure
no_key = raised (lit "TOGETHER_API_KEY not set — LLM analysis/revision is disabled")

module _ (ai : Together) (settings : ChatSettings) where
  -- `_chat`
  unfoldable pub chat : Request ai.F → Exec ai.redis.Outside Text
  unfolding check_budget record_usage
  chat request = if is_empty settings.together_api_key then raise no_key else (do
    check_budget ai.redis settings.daily_token_budget
    completion ← ai.post request
    record_usage ai.redis completion.total_tokens
    lift completion.content)

  -- Where a key is set and Redis answers that the tokens of the day have reached a positive budget,
  -- a call ends with BudgetExceeded right after that read: the endpoint is not called and no usage
  -- is recorded.
  pub chat_spent :
      (request : Request ai.F) (o o' : ai.redis.Outside) (used : ℕ)
      → settings.together_api_key ≢ []
      → 0 < settings.daily_token_budget
      → settings.daily_token_budget ≤ used
      → ai.redis.get (usage_key ai.redis o) o ≡ (ok (some used), o')
      → chat request o
        ≡ (err (budget_exceeded (over_budget ai.redis used settings.daily_token_budget)), o')
  unfolding chat check_budget
  chat_spent request o o' used key pos spent reads =
      let has_key : is_empty settings.together_api_key ≡ false = ground (arith, key) in
      let limited : (settings.daily_token_budget == 0) ≡ false = ground (arith, pos) in
      let over : leb settings.daily_token_budget used ≡ true = ground (arith, spent) in
      rw has_key (rw limited (rw reads (rw over refl)))
