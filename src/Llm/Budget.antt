-- ===== src/Llm/Budget.antt =====
-- backend/llm/budget.py: the tokens of a day, which are counted in Redis.
use orca_validator.Prelude.{
  ℕ, ◌++◌, Option, none, some, ◌==◌, leb, if◌then◌else◌, Text, lit, budget_exceeded, Result, ok,
  err, Exec, ◌>>◌,
}

-- Redis and the clock, on the state of everything outside; each call may raise.
pub record Redis : Type 1 where
  pub Outside : Type 0
  pub today : Outside → Text
  pub get : Text → Exec Outside (Option ℕ)
  pub incrby : Text → ℕ → Exec Outside (Unit {0})
  pub expire : Text → ℕ → Exec Outside (Unit {0})
  -- `str(n)`
  pub decimal : ℕ → Text

module _ (redis : Redis) where
  -- `_key`
  abbrev pub usage_key : redis.Outside → Text
  usage_key o = lit "orca:llm:tokens:" ++ redis.today o

  -- `n or 0`
  abbrev pub or_zero : Option ℕ → ℕ
  or_zero none = 0
  or_zero (some n) = n

  abbrev pub over_budget : ℕ → ℕ → Text
  over_budget used budget =
      lit "daily LLM token budget reached ("
      ++ (redis.decimal used ++ (lit "/" ++ (redis.decimal budget ++ lit ")")))

  -- What the check makes of Redis' answer: it fails open.
  abbrev pub admit : ℕ → Result (Option ℕ) → Result (Unit {0})
  admit budget (err e) = ok tt
  admit budget (ok used) =
      if leb budget (or_zero used)
      then err (budget_exceeded (over_budget (or_zero used) budget))
      else ok tt

  -- `check_budget`; a budget of 0 or below is the number 0.
  unfoldable pub check_budget : ℕ → Exec redis.Outside (Unit {0})
  check_budget budget o =
      if budget == 0
      then (ok tt, o)
      else (let (r, o') = redis.get (usage_key o) o in (admit budget r, o'))

  -- `except Exception`: the failure is only logged.
  abbrev pub ignore : Result (Unit {0}) × redis.Outside → Result (Unit {0}) × redis.Outside
  ignore (r, o) = (ok tt, o)

  -- `record_usage`; the key is computed anew for each of the two calls.
  unfoldable pub record_usage : ℕ → Exec redis.Outside (Unit {0})
  record_usage tokens o =
      if tokens == 0
      then (ok tt, o)
      else ignore
          ((do redis.incrby (usage_key o) tokens; λ o'. redis.expire (usage_key o') 172800 o') o)
