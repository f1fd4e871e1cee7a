-- ===== src/Llm/Analysis.antt =====
-- backend/llm/together.py, analyze_contract: what is made of the model's analysis of a document.
pub mod Complete
use orca_validator.Prelude.{
  ℕ, Bool, true, List, [], ◌∷◌, ◌++◌, Option, none, some, if◌then◌else◌, Text, lit, Dict, get, put,
  has_key, take, Failure, Result, ok, err, Exec, ◌>>=◌, lift,
}
use orca_validator.Llm.Prompts.{analysis_sys}
use orca_validator.Llm.Chat.{Request, Together, ChatSettings, chat}

-- The values of JSON, as far as the code makes or reads them: `texts` is what `or []`, the slice and
-- `str` of the elements make of a value, or the TypeError of a value that has no slice.
pub record Json : Type 1 where
  pub Value : Type 0
  pub str : Text → Value
  pub empty_list : Value
  pub texts : Value → Result (List Text)

-- `json.loads` of a content: no JSON, JSON that is no object, on which `setdefault` raises, or an
-- object.
pub data Loaded (Value : Type 0) : Type 0 where
  no_json : Loaded Value
  no_object : Failure → Loaded Value
  object : Dict Value → Loaded Value

module _ (json : Json) where
  -- `data.setdefault(key, value)`
  abbrev pub set_default : Text → json.Value → Dict json.Value → Dict json.Value
  set_default k v d = if has_key k d then d else put k v d

  abbrev pub list_keys : List Text
  list_keys =
      lit "parties"
      ∷ lit "key_terms"
      ∷ lit "strengths"
      ∷ lit "weaknesses"
      ∷ lit "potential_pitfalls"
      ∷ lit "issues"
      ∷ lit "missing_or_weak_clauses"
      ∷ []

  -- The loop over the keys.
  unfoldable pub set_lists : List Text → Dict json.Value → Dict json.Value
  set_lists [] d = d
  set_lists (k ∷ ks) d = set_lists ks (set_default k json.empty_list d)

  -- The analysis that shows a content that is no JSON.
  abbrev pub raw_summary : Text → Dict json.Value
  raw_summary content =
      (lit "summary", json.str (take 2000 content))
      ∷ (lit "aims", json.str [])
      ∷ (lit "parties", json.empty_list)
      ∷ (lit "key_terms", json.empty_list)
      ∷ (lit "strengths", json.empty_list)
      ∷ (lit "weaknesses", json.empty_list)
      ∷ (lit "potential_pitfalls", json.empty_list)
      ∷ (lit "issues", json.empty_list)
      ∷ (lit "missing_or_weak_clauses", json.empty_list)
      ∷ (lit "overall_recommendation", json.str [])
      ∷ (lit "_parse_note", json.str (lit "model did not return valid JSON; showing raw summary"))
      ∷ []

  unfoldable pub read_analysis : Text → Loaded json.Value → Result (Dict json.Value)
  unfolding set_lists
  read_analysis content no_json = ok (raw_summary content)
  read_analysis content (no_object e) = err e
  read_analysis content (object fields) =
      ok (set_default (lit "aims") (json.str []) (set_lists list_keys fields))

  -- `analysis.get("missing_or_weak_clauses") or []`, its elements as texts, or the exception that
  -- `_draft_additions` raises on it
  abbrev pub texts_or : Option json.Value → Result (List Text)
  texts_or none = ok []
  texts_or (some v) = json.texts v

  abbrev pub missing_clauses : Dict json.Value → Result (List Text)
  missing_clauses analysis = texts_or (get (lit "missing_or_weak_clauses") analysis)

-- `json.loads` is Python's.
module _ (json : Json) (ai : Together) (settings : ChatSettings)
    (loads : Text → Loaded json.Value) where
  abbrev pub analysis_request : Text → ai.F → Request ai.F
  analysis_request text temperature = record {
    system = analysis_sys;
    user = lit "Document text:\n\n" ++ take 60000 text;
    max_tokens = 3200;
    temperature = temperature;
    response_json = true;
  }

  -- `analyze_contract`
  unfoldable pub analyze_contract : Text → ai.F → Exec ai.redis.Outside (Dict json.Value)
  unfolding read_analysis chat
  analyze_contract text temperature = do
    content ← chat ai settings (analysis_request text temperature)
    lift (read_analysis json content (loads content))
