-- ===== src/Export/Docx.antt =====
-- backend/export/docx.py: Markdown rendered as the blocks of a Word document.
pub mod Bold
pub mod Rendered
use Prim.Native.Nat.{min}
use orca_validator.Prelude.{
  ℕ, zero, suc, Bool, true, false, not, ◌&&◌, ◌||◌, List, [], ◌∷◌, ◌++◌, Option, none, some, map,
  ◌==◌, ltb, if◌then◌else◌, Text, lit, length, drop, is_empty, starts_with, is_space, rstrip, span,
  push_char, splitlines,
}
use orca_validator.Export.Redline.{cut}

pub record TextRun : Type 0 where
  pub text : Text
  pub bold : Bool

-- What the code adds to a document of python-docx: a heading with its level, a paragraph, or one in
-- the style "List Bullet".
pub data Block : Type 0 where
  heading : ℕ → Text → Block
  paragraph bullet : List TextRun → Block

abbrev pub stars : Text
stars = lit "**"

-- What a match of `\*\*(.+?)\*\*` at the head of a text encloses, and what follows it.
abbrev pub in_bold : ℕ → Option (Text × Text) → Option (Text × Text)
in_bold c none = none
in_bold c (some (a, b)) = some (c ∷ a, b)

abbrev pub bold_body : Text → Option (Text × Text)
unfolding cut
bold_body [] = none
bold_body (c ∷ s) = in_bold c (cut stars s)

unfoldable pub bold_at : Text → Option (Text × Text)
unfolding bold_body
bold_at s = if starts_with s stars then bold_body (drop 2 s) else none

-- `re.split(r"\*\*(.+?)\*\*", text)`: every second segment was enclosed. Each round consumes a
-- character, so the length of the text is fuel enough.
unfoldable pub segments : ℕ → Text → List Text
unfolding bold_at
segments zero s = s ∷ []
segments (suc n) [] = [] ∷ []
segments (suc n) (c ∷ s) = elim (bold_at (c ∷ s)) [
  | none ↦ push_char c (segments n s)
  | some (body, rest) ↦ [] ∷ body ∷ segments n rest
]

-- The loop of `_add_runs`; the flag says whether the index is odd.
unfoldable pub runs_from : Bool → List Text → List TextRun
runs_from bold [] = []
runs_from bold (seg ∷ segs) =
    let rest = runs_from (not bold) segs in
    if is_empty seg then rest else record { text = seg; bold = bold } ∷ rest

-- `_add_runs`
unfoldable pub add_runs : Text → List TextRun
unfolding segments runs_from
add_runs text = runs_from false (segments (length text) text)

abbrev pub is_hash : ℕ → Bool
is_hash c = c == b'#'

-- A line that is no heading, by what its first character and the run of white space behind it are.
unfoldable pub text_block : Text → Block
unfolding span add_runs
text_block [] = paragraph []
text_block (c ∷ s) =
    let (gap, rest) = span is_space s in
    if (c == b'-' || c == b'*') && not (is_empty gap)
    then bullet (add_runs rest)
    else paragraph (add_runs (c ∷ s))

-- The block of a line without its trailing white space.
unfoldable pub block_of : Text → Block
unfolding span text_block
block_of line =
    let (hashes, s) = span is_hash line in
    let (gap, rest) = span is_space s in
    if not (is_empty hashes) && (ltb (length hashes) 7 && not (is_empty gap))
    then heading (min (length hashes) 4) rest
    else text_block line

-- The loop over the lines.
unfoldable pub blocks_of : List Text → List Block
unfolding block_of
blocks_of [] = []
blocks_of (raw ∷ lines) = block_of (rstrip raw) ∷ blocks_of lines

-- `markdown_to_docx`, up to the bytes that python-docx saves
unfoldable pub markdown_to_docx : Text → Text → List Block
unfolding blocks_of splitlines
markdown_to_docx md title = heading 0 title ∷ blocks_of (splitlines md)
