-- ===== src/Llm/Chunks.antt =====
-- backend/llm/together.py, _split_into_chunks: a long text cut near paragraph, line or word ends.
pub mod Bounds
pub mod Content
use orca_validator.Prelude.{
  ℕ, zero, suc, ◌+◌, ◌*◌, Bool, true, false, List, [], ◌∷◌, Option, none, some, ltb, if◌then◌else◌,
  Text, lit, length, take, drop, is_empty, rfind, strip, lstrip,
}

-- `brk < max_chars * 0.5`, where a failed `rfind` is -1
unfoldable pub too_early : ℕ → Option ℕ → Bool
too_early max_chars none = true
too_early max_chars (some i) = ltb (2 * i) max_chars

unfoldable pub or_length : ℕ → Option ℕ → ℕ
or_length max_chars none = max_chars
or_length max_chars (some i) = i

-- Where the next chunk ends in a window of `max_chars` characters.
unfoldable pub break_point : ℕ → Text → ℕ
unfolding too_early or_length
break_point max_chars window =
    let paragraph = rfind (lit "\n\n") window in
    let line = rfind (lit "\n") window in
    let word = rfind (lit " ") window in
    if too_early max_chars paragraph
    then if too_early max_chars line
      then if too_early max_chars word then max_chars else or_length max_chars word
      else or_length max_chars line
    else or_length max_chars paragraph

-- The `while` loop and the last chunk; `none` when the fuel has run out.
unfoldable pub split_loop : ℕ → ℕ → Text → Option (List Text)
unfolding break_point
split_loop zero max_chars remaining = none
split_loop (suc fuel) max_chars remaining =
    let brk = break_point max_chars (take max_chars remaining) in
    let rest = split_loop fuel max_chars (lstrip (drop brk remaining)) in
    if ltb max_chars (length remaining)
    then elim rest [ none ↦ none | some chunks ↦ some (take brk remaining ∷ chunks) ]
    else some (if is_empty remaining then [] else remaining ∷ [])

-- `chunks or [text]`
unfoldable pub or_whole : Text → Option (List Text) → Option (List Text)
or_whole text none = none
or_whole text (some []) = some (text ∷ [])
or_whole text (some (c ∷ cs)) = some (c ∷ cs)

-- Each round consumes a character, so one round more than the text is long is fuel enough.
unfoldable pub split_into_chunks : Text → ℕ → Option (List Text)
unfolding split_loop or_whole
split_into_chunks text max_chars =
    or_whole text (split_loop (suc (length text)) max_chars (strip text))

-- `_CHUNK_CHARS` and `_MAX_CHUNKS`
abbrev pub chunk_chars : ℕ
chunk_chars = 8000

abbrev pub max_chunks : ℕ
max_chunks = 12
