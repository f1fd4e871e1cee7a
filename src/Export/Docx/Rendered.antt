-- ===== src/Export/Docx/Rendered.antt =====
-- Nothing of a text is lost in the document.
use Prim.Native.Nat.{min}
use mathlib.Core.Path.{subst}
use orca_validator.Prelude.{
  ℕ, zero, suc, ◌+◌, ◌≡◌, ◌≤◌, refl, ap, ◌∙◌, Bool, true, false, not, ◌&&◌, ◌||◌, List, [], ◌∷◌,
  ◌++◌, append_assoc, append-nil, arith, ◌==◌, ltb, if◌then◌else◌, Option-cases, inl, inr, Text,
  length, is_empty, is_space, rstrip, span, push_char, splitlines, all,
}
use orca_validator.Export.Docx.Bold.{is_settled, bold_at_join, add_runs_settled}
use orca_validator.Export.Docx.{
  TextRun, Block, heading, paragraph, bullet, stars, bold_at, segments, runs_from, add_runs,
  is_hash, text_block, block_of, blocks_of, markdown_to_docx,
}

-- The Markdown of a run, and of some runs.
abbrev pub marked : TextRun → Text
marked r = if r.bold then stars ++ (r.text ++ stars) else r.text

abbrev pub source_of : List TextRun → Text
source_of [] = []
source_of (r ∷ runs) = marked r ++ source_of runs

-- Whether a line, behind some hashes, has the form of a heading: between one and six hashes in all,
-- and then white space.
abbrev pub is_heading_from : ℕ → Text → Bool
is_heading_from n [] = false
is_heading_from n (c ∷ s) =
    let more = is_heading_from (suc n) s in
    if is_hash c then more else ltb 0 n && (ltb n 7 && is_space c)

-- The form of a bullet: a dash or a star, and then white space.
abbrev pub is_bullet_line : Text → Bool
is_bullet_line (c ∷ d ∷ s) = (c == b'-' || c == b'*') && is_space d
is_bullet_line _ = false

-- A block shows a line: a paragraph only one of neither form, and its text is the line's, without
-- the marks that the block stands for.
pub data Shows : Text → Block → Type 0 where
  as_heading :
      (hashes gap text : Text)
      → (is_empty hashes || is_empty gap) ≡ false
      → all is_hash hashes ≡ true
      → all is_space gap ≡ true
      → length hashes ≤ 6
      → Shows (hashes ++ (gap ++ text)) (heading (min (length hashes) 4) text)
  as_bullet :
      (mark : ℕ) (gap : Text) (runs : List TextRun)
      → (mark == b'-' || mark == b'*') ≡ true
      → is_empty gap ≡ false
      → all is_space gap ≡ true
      → all is_settled runs ≡ true
      → Shows (mark ∷ (gap ++ source_of runs)) (bullet runs)
  as_paragraph :
      (runs : List TextRun)
      → is_heading_from 0 (source_of runs) ≡ false
      → is_bullet_line (source_of runs) ≡ false
      → all is_settled runs ≡ true
      → Shows (source_of runs) (paragraph runs)

-- One block for each line, in order.
abbrev pub AreShown : List Text → List Block → Type 0
AreShown [] [] = Unit
AreShown (raw ∷ lines) (b ∷ blocks) = Shows (rstrip raw) b × AreShown lines blocks
AreShown _ _ = ⊥

span_append : (p : ℕ → Bool) (s : Text) → (span p s).0 ++ (span p s).1 ≡ s
unfolding span
span_append p [] = refl
span_append p (c ∷ s) = ground (arith, span_append p s)

span-all : (p : ℕ → Bool) (s : Text) → all p (span p s).0 ≡ true
unfolding span
span-all p [] = refl
span-all p (c ∷ s) = ground (arith, span-all p s)

source-push_char :
    (c : ℕ) (segs : List Text)
    → source_of (runs_from false (push_char c segs)) ≡ c ∷ source_of (runs_from false segs)
unfolding runs_from
source-push_char c [] = refl
source-push_char c ([] ∷ segs) = refl
source-push_char c ((d ∷ seg) ∷ segs) = refl

source_bold :
    (body : Text) (segs : List Text)
    → is_empty body ≡ false
    → source_of (runs_from false ([] ∷ body ∷ segs))
      ≡ stars ++ (body ++ (stars ++ source_of (runs_from false segs)))
unfolding runs_from
source_bold [] segs h = cc
source_bold (c ∷ body) segs h =
    ap (λ t. stars ++ (c ∷ t)) (append_assoc body stars (source_of (runs_from false segs)))

source_plain : (s : Text) → source_of (runs_from false (s ∷ [])) ≡ s
unfolding runs_from
source_plain [] = refl
source_plain (c ∷ s) = append-nil (c ∷ s)

-- The runs of a text are its Markdown.
source_of-segments : (n : ℕ) (s : Text) → source_of (runs_from false (segments n s)) ≡ s
unfolding segments
source_of-segments zero s = source_plain s
source_of-segments (suc n) [] = unfold runs_from in refl
source_of-segments (suc n) (c ∷ s) = elim (Option-cases (bold_at (c ∷ s))) [
  | inl e ↦
      rw (e, segments) (source-push_char c (segments n s) ∙ ap (◌∷◌ c) (source_of-segments n s))
  | inr ((body, rest), e) ↦
      let j = bold_at_join (c ∷ s) body rest e in
      rw (e, segments)
        (source_bold body (segments n rest) j.1
          ∙ ap (λ t. stars ++ (body ++ (stars ++ t))) (source_of-segments n rest)
          ∙ j.0)
]

source-add_runs : (s : Text) → source_of (add_runs s) ≡ s
unfolding add_runs
source-add_runs s = source_of-segments (length s) s

either_block :
    (line : Text) (b : Bool) (x y : Block)
    → (b ≡ true → Shows line x)
    → (b ≡ false → Shows line y)
    → Shows line (if b then x else y)
either_block line true x y hx hy = hx refl
either_block line false x y hx hy = hy refl

paragraph-Shows :
    (s : Text)
    → is_heading_from 0 s ≡ false
    → is_bullet_line s ≡ false
    → Shows s (paragraph (add_runs s))
paragraph-Shows s no_heading no_bullet =
    let same = source-add_runs s in
    subst (λ t. Shows t (paragraph (add_runs s))) same
      (as_paragraph (add_runs s) (ap (is_heading_from 0) same ∙ no_heading)
        (ap is_bullet_line same ∙ no_bullet) (add_runs_settled s))

-- The form of a heading, by the two runs of characters that the code looks at.
is_heading_from-span :
    (n : ℕ) (s : Text)
    → is_heading_from n s
      ≡ ltb 0 (n + length (span is_hash s).0)
        && (ltb (n + length (span is_hash s).0) 7
            && not (is_empty (span is_space (span is_hash s).1).0))
unfolding span
is_heading_from-span n [] = ground arith
is_heading_from-span n (c ∷ s) = ground (arith, is_heading_from-span (suc n) s)

is_bullet_line-span :
    (c : ℕ) (s : Text)
    → is_bullet_line (c ∷ s) ≡ (c == b'-' || c == b'*') && not (is_empty (span is_space s).0)
unfolding span
is_bullet_line-span c [] = ground arith
is_bullet_line-span c (d ∷ s) = ground arith

bullet-Shows :
    (mark : ℕ) (s : Text)
    → (mark == b'-' || mark == b'*') ≡ true
    → is_empty (span is_space s).0 ≡ false
    → Shows (mark ∷ s) (bullet (add_runs (span is_space s).1))
bullet-Shows mark s h wide =
    let (gap, rest) = span is_space s in
    subst (λ t. Shows t (bullet (add_runs rest)))
      (ap (λ t. mark ∷ (gap ++ t)) (source-add_runs rest) ∙ ap (◌∷◌ mark) (span_append is_space s))
      (as_bullet mark gap (add_runs rest) h wide (span-all is_space s) (add_runs_settled rest))

heading-Shows :
    (line : Text)
    → (is_empty (span is_hash line).0 || is_empty (span is_space (span is_hash line).1).0) ≡ false
    → length (span is_hash line).0 ≤ 6
    → Shows line
        (heading (min (length (span is_hash line).0) 4) (span is_space (span is_hash line).1).1)
heading-Shows line marked_off h =
    let (hashes, behind) = span is_hash line in
    let (gap, rest) = span is_space behind in
    subst (λ t. Shows t (heading (min (length hashes) 4) rest))
      (ap (◌++◌ hashes) (span_append is_space behind) ∙ span_append is_hash line)
      (as_heading hashes gap rest marked_off (span-all is_hash line) (span-all is_space behind) h)

text_block-Shows : (line : Text) → is_heading_from 0 line ≡ false → Shows line (text_block line)
unfolding text_block
text_block-Shows [] no_heading = as_paragraph [] refl refl refl
text_block-Shows (c ∷ s) no_heading =
    either_block (c ∷ s) ((c == b'-' || c == b'*') && not (is_empty (span is_space s).0))
      (bullet (add_runs (span is_space s).1)) (paragraph (add_runs (c ∷ s)))
      (λ h. bullet-Shows c s (ground (arith, h)) (ground (arith, h)))
      (λ h. paragraph-Shows (c ∷ s) no_heading (is_bullet_line-span c s ∙ h))

block_of-Shows : (line : Text) → Shows line (block_of line)
unfolding block_of
block_of-Shows line =
    let hashes = (span is_hash line).0 in
    let behind = (span is_hash line).1 in
    either_block line
      (not (is_empty hashes) && (ltb (length hashes) 7 && not (is_empty (span is_space behind).0)))
      (heading (min (length hashes) 4) (span is_space behind).1) (text_block line)
      (λ h. heading-Shows line (ground (arith, h)) (ground (arith, h)))
      (λ h. text_block-Shows line (ground (arith, h, is_heading_from-span 0 line)))

blocks_of-AreShown : (lines : List Text) → AreShown lines (blocks_of lines)
unfolding blocks_of
blocks_of-AreShown [] = tt
blocks_of-AreShown (raw ∷ lines) = (block_of-Shows (rstrip raw), blocks_of-AreShown lines)

-- The document of a text is its title and then, line by line, a block that shows the line: a heading
-- at the level of its hashes but at most 4, a bullet, or, for a line of neither form only, a
-- paragraph, whose runs, with stars put around the bold ones, are the line's text, and of which none
-- that is not bold has a part between double stars.
pub markdown_to_docx-AreShown :
    (md title : Text)
    → (blocks : List Block) × (markdown_to_docx md title ≡ heading 0 title ∷ blocks)
      × AreShown (splitlines md) blocks
unfolding markdown_to_docx
markdown_to_docx-AreShown md title =
    (blocks_of (splitlines md), refl, blocks_of-AreShown (splitlines md))
