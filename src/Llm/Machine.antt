-- ===== src/Llm/Machine.antt =====
-- backend/llm/together.py, extract_state_machine: the machine that a document describes, as the model
-- writes it, repaired.
pub mod Repaired
use orca_validator.Prelude.{
  ℕ, ◌+◌, ◌-◌, Bool, true, false, not, ◌&&◌, ◌||◌, List, [], ◌∷◌, ◌++◌, ◌==◌, leb, if◌then◌else◌,
  Text, lit, strip, is_space, is_empty, starts_with, text_eq, span, take, drop, Exec, pure, ◌>>=◌,
}
use orca_validator.Orca.Fsm.{is_lower, is_upper}
use orca_validator.Llm.Prompts.{fsm_format}
use orca_validator.Llm.Chat.{Request, Together, ChatSettings, chat}

abbrev pub fence : Text
fence = lit "```"

abbrev pub drop_feed : Text → Text
drop_feed [] = []
drop_feed (c ∷ s) = if c == 10 then s else c ∷ s

-- `re.sub(r"^```[a-zA-Z]*\n?", "", md)`, where the text begins with the fence
unfoldable pub open_fence : Text → Text
unfolding span
open_fence md = drop_feed (span (λ c. is_lower c || is_upper c) (drop 3 md)).1

-- `re.sub(r"\n?```$", "", md)`: the text ends in no line feed, so that `$` is its end.
unfoldable pub close_fence : Text → Text
close_fence [] = []
close_fence (c ∷ s) =
    let rest = close_fence s in
    if text_eq (c ∷ s) (10 ∷ fence) || text_eq (c ∷ s) fence then [] else c ∷ rest

-- Accidental code fences are stripped.
unfoldable pub unfence : Text → Text
unfolding open_fence close_fence
unfence md = if starts_with md fence then close_fence (open_fence md) else md

-- One character and one of the word "machine", case ignored: the i stands for two more.
abbrev pub same_letter : ℕ → ℕ → Bool
same_letter p c = c == p || c == p - 32 || (p == b'i' && (c == 0x130 || c == 0x131))

abbrev pub begins_with : Text → Text → Bool
begins_with [] s = true
begins_with (p ∷ ps) [] = false
begins_with (p ∷ ps) (c ∷ s) = same_letter p c && begins_with ps s

abbrev pub keyword : Text
keyword = lit "machine"

-- What stands behind a `#` and white space at the head, where there is both.
abbrev pub after_hash : Text → Bool × Text
after_hash [] = (false, [])
after_hash (c ∷ s) = let (gap, rest) = span is_space s in ((c == b'#') && not (is_empty gap), rest)

-- `\w` is Python's.
module _ (is_word : ℕ → Bool) where
  -- `\b` behind a letter
  abbrev pub ends_word : Text → Bool
  ends_word [] = true
  ends_word (c ∷ s) = not (is_word c)

  -- `re.match(r"^#\s+machine\b", md, re.IGNORECASE)`
  unfoldable pub has_keyword : Text → Bool
  unfolding span is_space
  has_keyword md =
      let (titled, rest) = after_hash md in
      titled && (begins_with keyword rest && ends_word (drop 7 rest))

  -- The keyword is put into a header that lacks it.
  unfoldable pub repair : Text → Text
  unfolding has_keyword span is_space
  repair md =
      let (titled, rest) = after_hash md in
      if has_keyword md then md else if titled then lit "# machine " ++ rest else md

  -- What `extract_state_machine` makes of a content.
  unfoldable pub repaired : Text → Text
  unfolding unfence repair strip
  repaired content = strip (repair (strip (unfence (strip content))))

module _ (ai : Together) (settings : ChatSettings) (is_word : ℕ → Bool) where
  abbrev pub machine_request : Text → ai.F → Request ai.F
  machine_request text temperature = record {
    system = lit "You are a systems analyst. " ++ fsm_format;
    user = lit "Document:\n\n" ++ take 40000 text;
    max_tokens = 1500;
    temperature = temperature;
    response_json = false;
  }

  -- `extract_state_machine`
  unfoldable pub extract_state_machine : Text → ai.F → Exec ai.redis.Outside Text
  unfolding repaired chat
  extract_state_machine text temperature = do
    content ← chat ai settings (machine_request text temperature)
    pure (repaired is_word content)
