-- ===== src/Ocr/Regex.antt =====
-- The regular expressions of backend/ocr/extract.py, and what `re.search` finds.
pub mod Search
use orca_validator.Prelude.{
  ℕ, Bool, false, not, ◌||◌, List, [], ◌∷◌, ◌++◌, Option, none, some, ◌==◌, if◌then◌else◌, Text,
  is_empty,
}

-- The forms that the patterns use: a text, `a|b`, `ab`, `\b` and `\w*`.
pub data Regex : Type 0 where
  literal : Text → Regex
  either sequence : Regex → Regex → Regex
  boundary word_chars : Regex

-- A place in a text: the character before it, and the text behind it.
abbrev pub Position : Type 0
Position = Option ℕ × Text

-- `is_word` says which characters are `\w`; it is Python's Unicode table.
module _ (is_word : ℕ → Bool) where
  abbrev pub word_before : Option ℕ → Bool
  word_before none = false
  word_before (some c) = is_word c

  abbrev pub word_after : Text → Bool
  word_after [] = false
  word_after (c ∷ s) = is_word c

  abbrev pub differ : Bool → Bool → Bool
  differ a b = if a then not b else b

  -- The places that a text read at a place leads to: none or one.
  unfoldable pub read : Text → Option ℕ → Text → List Position
  read [] before s = (before, s) ∷ []
  read (c ∷ cs) before [] = []
  read (c ∷ cs) before (d ∷ s) = if c == d then read cs (some d) s else []

  -- The places that `\w*` leads to.
  unfoldable pub read_word : Option ℕ → Text → List Position
  read_word before [] = (before, []) ∷ []
  read_word before (c ∷ s) = (before, c ∷ s) ∷ (if is_word c then read_word (some c) s else [])

  abbrev pub flat_map : (Position → List Position) → List Position → List Position
  flat_map f [] = []
  flat_map f (p ∷ ps) = f p ++ flat_map f ps

  -- All places where a match that begins at a place can end.
  unfoldable pub ends : Regex → Position → List Position
  unfolding read read_word
  ends (literal t) (before, s) = read t before s
  ends (either a b) p = ends a p ++ ends b p
  ends (sequence a b) p = flat_map (λ q. ends b q) (ends a p)
  ends boundary (before, s) =
      if differ (word_before before) (word_after s) then (before, s) ∷ [] else []
  ends word_chars (before, s) = read_word before s

  unfoldable pub search_from : Regex → Option ℕ → Text → Bool
  unfolding ends
  search_from r before [] = not (is_empty (ends r (before, [])))
  search_from r before (c ∷ s) = not (is_empty (ends r (before, c ∷ s))) || search_from r (some c) s

  -- `bool(re.search(r, s))`
  unfoldable pub search : Regex → Text → Bool
  unfolding search_from
  search r s = search_from r none s
