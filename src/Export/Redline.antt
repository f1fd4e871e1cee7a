-- ===== src/Export/Redline.antt =====
-- backend/export/redline.py: redline markup resolved into a clean document.
pub mod Bounds
mod Resolve
pub mod Accepted
pub mod Stray
use orca_validator.Prelude.{
  ℕ, zero, suc, Bool, ◌&&◌, ◌||◌, List, [], ◌∷◌, ◌++◌, Option, some, none, ◌==◌, if◌then◌else◌,
  Text, lit, length, drop, is_empty, starts_with,
}

-- The text before the first occurrence of `p`, and the text behind it.
unfoldable pub cut : Text → Text → Option (Text × Text)
cut p [] = if is_empty p then some ([], []) else none
cut p (c ∷ s) =
    if starts_with (c ∷ s) p
    then some ([], drop (length p) (c ∷ s))
    else elim (cut p s) [ none ↦ none | some (a, b) ↦ some (c ∷ a, b) ]

-- What a match of `opening([\s\S]*?)closing` at the head of a text encloses, and what follows it.
unfoldable pub enclosed : Text → Text → Text → Option (Text × Text)
unfolding cut
enclosed opening closing s =
    if starts_with s opening then cut closing (drop (length opening) s) else none

-- `re.sub` of `opening([\s\S]*?)closing`, a match replaced by `f` of what it encloses. Each round
-- consumes a character, so the length of the text is fuel enough.
unfoldable pub substitute : Text → Text → (Text → Text) → ℕ → Text → Text
unfolding enclosed
substitute opening closing f zero s = s
substitute opening closing f (suc n) [] = []
substitute opening closing f (suc n) (c ∷ s) = elim (enclosed opening closing (c ∷ s)) [
  | none ↦ c ∷ substitute opening closing f n s
  | some (body, rest) ↦ f body ++ substitute opening closing f n rest
]

-- `_DEL.sub("", text)`
unfoldable pub drop_deleted : Text → Text
unfolding substitute
drop_deleted s = substitute (lit "{--") (lit "--}") (λ _. []) (length s) s

-- `_INS.sub(r"\1", text)`
unfoldable pub keep_inserted : Text → Text
unfolding substitute
keep_inserted s = substitute (lit "{++") (lit "++}") (λ body. body) (length s) s

abbrev pub is_marker : ℕ → ℕ → ℕ → Bool
is_marker a b c =
    (a == b'{' && b == b'-' && c == b'-')
    || (a == b'-' && b == b'-' && c == b'}')
    || (a == b'{' && b == b'+' && c == b'+')
    || (a == b'+' && b == b'+' && c == b'}')

-- `_STRAY.sub("", text)`
unfoldable pub strip_stray : Text → Text
strip_stray [] = []
strip_stray (a ∷ []) = a ∷ []
strip_stray (a ∷ b ∷ []) = a ∷ b ∷ []
strip_stray (a ∷ b ∷ c ∷ s) = elim (is_marker a b c) [
  | Bool.true ↦ strip_stray s
  | Bool.false ↦ a ∷ strip_stray (b ∷ c ∷ s)
]

unfoldable pub clean_revision : Option Text → Text
clean_revision none = []
clean_revision (some redline) =
    if is_empty redline then [] else strip_stray (keep_inserted (drop_deleted redline))
