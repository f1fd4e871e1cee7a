-- ===== src/Llm/Revision.antt =====
-- backend/llm/together.py, revise_contract: the redline of a whole document, chunk by chunk.
pub mod Coverage
use orca_validator.Prelude.{
  ℕ, Bool, false, not, List, [], ◌∷◌, ◌++◌, Option, none, some, if◌then◌else◌, Text, lit, is_empty,
  strip, join, take, length, ltb, keep, Failure, Result, ok, err, Exec, pure, raise, lift, continue,
  ◌>>=◌, ◌>>◌,
}
use orca_validator.Llm.Chunks.{split_into_chunks, chunk_chars, max_chunks}
use orca_validator.Llm.Chat.{Request, Together, ChatSettings, chat}

-- `_REVISE_SYS`
abbrev pub revise_sys : Text
revise_sys =
    lit
      "You are an editor producing a REDLINE of ONE SECTION of a longer document. Improve wording, "
    ++ (lit
          "fix problems, and tighten weak or ambiguous language in this section, preserving its meaning. "
        ++ (lit
              "Mark EVERY change inline: wrap text you REMOVE in {--double-minus braces--} and text you ADD in "
            ++ (lit
                  "{++double-plus braces++}. Leave unchanged text exactly as-is, with no markers. Use no other "
                ++ lit
                    "change notation. Output ONLY the redlined section — no preamble, no explanation.")))

abbrev pub additions_sys : Text
additions_sys =
    lit
      "Draft formal clauses for each item below as new document language. Wrap EACH drafted clause "
    ++ lit
        "entirely in {++double-plus braces++} so it renders as an addition. Output only the clauses."

abbrev pub truncated_note : Text
truncated_note =
    lit "\n\n{++[Note: the document was very long; this redline covers its first portion.]++}"

abbrev pub given : Option (List Text) → List Text
given none = []
given (some cs) = cs

-- The chunks of a text; the split of a text that is not blank ends (Llm/Chunks/Bounds).
unfoldable pub chunks_of : Text → List Text
chunks_of text = given (split_into_chunks text chunk_chars)

-- The redline of the parts, and the note where chunks were left out.
unfoldable pub assemble : List Text → Bool → Text
assemble parts truncated =
    let redline = join (lit "\n\n") (keep (λ p. not (is_empty p)) parts) in
    if truncated then redline ++ truncated_note else redline

-- The redline with the drafted clauses behind it.
unfoldable pub with_additions : Text → Text → Text
with_additions redline additions =
    strip (if is_empty additions then redline else redline ++ (lit "\n\n" ++ additions))

module _ (ai : Together) (settings : ChatSettings) where
  abbrev pub stripped : Exec ai.redis.Outside Text → Exec ai.redis.Outside Text
  stripped m = do answer ← m; pure (strip answer)

  -- `_revise_chunk`
  unfoldable pub revise_chunk : Text → ai.F → Exec ai.redis.Outside Text
  unfolding chat
  revise_chunk chunk temperature = stripped (
      chat ai settings (record {
        system = revise_sys;
        user = chunk;
        max_tokens = 4096;
        temperature = temperature;
        response_json = false;
      }))

  -- The clauses that are drafted for the items.
  abbrev pub draft_items : ai.F → List Text → Exec ai.redis.Outside Text
  unfolding chat
  draft_items temperature items =
      if is_empty items
      then pure []
      else stripped (
          chat ai settings (record {
            system = additions_sys;
            user = lit "Draft additions for:\n- " ++ join (lit "\n- ") (take 12 items);
            max_tokens = 2400;
            temperature = temperature;
            response_json = false;
          }))

  -- `_draft_additions`; `missing` is the items' texts, or what its slice raises where it is no list.
  unfoldable pub draft_additions : Result (List Text) → ai.F → Exec ai.redis.Outside Text
  unfolding draft_items
  draft_additions (ok items) temperature = draft_items temperature items
  draft_additions (err e) temperature = raise e

  -- The loop over the chunks; a raise leaves it.
  unfoldable pub revise_chunks : List Text → ai.F → Exec ai.redis.Outside (List Text)
  unfolding revise_chunk
  revise_chunks [] temperature = pure []
  revise_chunks (chunk ∷ chunks) temperature = do
    part ← revise_chunk chunk temperature
    parts ← revise_chunks chunks temperature
    pure (part ∷ parts)

  -- What `revise_contract` does with the chunks.
  unfoldable pub revise_all : List Text → Result (List Text) → ai.F → Exec ai.redis.Outside Text
  unfolding revise_chunks draft_additions
  revise_all chunks missing temperature = do
    parts ← revise_chunks (take max_chunks chunks) temperature
    additions ← draft_additions missing temperature
    pure (with_additions (assemble parts (ltb max_chunks (length chunks))) additions)

  -- `revise_contract`; `missing` is what the analysis lists as missing or weak clauses.
  unfoldable pub revise_contract : Text → Result (List Text) → ai.F → Exec ai.redis.Outside Text
  unfolding revise_all chunks_of
  revise_contract text missing temperature = revise_all (chunks_of text) missing temperature
