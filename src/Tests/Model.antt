-- ===== src/Tests/Model.antt =====
-- The theorems of the language-model layer, with a Redis whose answer is a number and an endpoint
-- that repeats what it is asked.
use orca_validator.Llm.Classification.{Parsed, answered}
use orca_validator.Llm.Analysis.{Json}
use orca_validator.Llm.Machine.{after_hash, unfence}
use orca_validator.Prelude.{
  List, span, ◌++◌, visible, visible-strip, true, none, ℕ, ◌+◌, ◌≡◌, ◌≢◌, refl, false, [], ◌∷◌,
  some, Text, lit, strip, is_space, rfind, arith, ok,
}
use orca_validator.Llm.Budget.{Redis}
use orca_validator.Llm.Chunks.{split_into_chunks, chunk_chars}
use orca_validator.Llm.Chat.{Request, Together, ChatSettings, chat}
use orca_validator.Llm.Revision.{revise_chunk, revise_contract}
use orca_validator.Llm.Revision.Coverage.{visible-revise_contract}

abbrev pub redis : Redis
redis = record {
  Outside = ℕ;
  today = λ o. lit "2026-01-01";
  get = λ k o. (ok (some o), o);
  incrby = λ k n o. (ok tt, o + n);
  expire = λ k s o. (ok tt, o);
  decimal = λ n. [];
}

abbrev pub echo : Together
echo = record {
  redis = redis;
  F = ℕ;
  post = λ r o. (ok (record { total_tokens = 5; content = ok r.user }), o);
}

abbrev pub limited : ChatSettings
limited = record { together_api_key = lit "k"; daily_token_budget = 100 }

abbrev unlimited : ChatSettings
unlimited = record { together_api_key = lit "k"; daily_token_budget = 0 }

abbrev question : Request ℕ
question = record {
  system = lit "s";
  user = lit "u";
  max_tokens = 10;
  temperature = 0;
  response_json = false;
}

pub has_key : limited.together_api_key ≢ []
has_key = λ e. ground (arith, e)

echoed : (chunk : Text) (o : ℕ) → revise_chunk echo unlimited chunk 0 o ≡ (ok (strip chunk), o + 5)
unfolding revise_chunk chat
echoed chunk o = refl

short_split : split_into_chunks (lit "a b") chunk_chars ≡ some (lit "a b" ∷ [])
unfolding split_into_chunks strip is_space rfind
short_split = refl

visible-revise_contract_example :
    (redline : Text) × ((revise_contract echo unlimited (lit "a b") (ok []) 0 7).0 ≡ ok redline)
    × (visible redline ≡ visible (lit "a b"))
visible-revise_contract_example =
    visible-revise_contract echo unlimited 0 strip (λ c o. o + 5) visible-strip echoed (lit "a b")
      (lit "a b" ∷ []) 7 short_split (omega arith)

-- An answer that names one field.
abbrev parse_one : Text → Parsed
parse_one t = answered (record {
  document_type = none;
  required_fields = record { name = lit " term "; present = true } ∷ [];
})

-- Values that are texts or lists of texts.
abbrev pub texts_only : Json
texts_only = record { Value = List Text; str = λ t. t ∷ []; empty_list = []; texts = λ v. ok v }

-- A header without its keyword, in a code fence.
abbrev fenced : Text
fenced = lit "```text" ++ (10 ∷ lit "# Lease" ++ (10 ∷ lit "```"))

fenced_titled : (after_hash (strip (unfence (strip fenced)))).0 ≡ true
unfolding unfence strip is_space span
fenced_titled = refl
