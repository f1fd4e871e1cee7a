-- ===== src/Ocr/Regex/Search.antt =====
-- What a search for an alternative and for a literal text comes to.
use orca_validator.Prelude.{
  ℕ, ◌≡◌, refl, Bool, not, ◌&&◌, ◌||◌, List, [], ◌∷◌, ◌++◌, Option, none, some, arith, Text,
  is_empty, starts_with, contains,
}
use orca_validator.Ocr.Regex.{Regex, literal, either, Position, read, ends, search_from, search}

is_empty-append : (ps qs : List Position) → is_empty (ps ++ qs) ≡ (is_empty ps && is_empty qs)
is_empty-append [] qs = refl
is_empty-append (p ∷ ps) qs = refl

module _ (is_word : ℕ → Bool) where
  search_from-either :
      (a b : Regex) (before : Option ℕ) (s : Text)
      → search_from is_word (either a b) before s
        ≡ (search_from is_word a before s || search_from is_word b before s)
  unfolding search_from ends
  search_from-either a b before [] =
      ground (arith, is_empty-append (ends is_word a (before, [])) (ends is_word b (before, [])))
  search_from-either a b before (c ∷ s) = ground (
    arith,
    is_empty-append (ends is_word a (before, c ∷ s)) (ends is_word b (before, c ∷ s)),
    search_from-either a b (some c) s,
  )

  -- A search for one of two patterns is a search for the one or for the other.
  pub search-either :
      (a b : Regex) (s : Text)
      → search is_word (either a b) s ≡ (search is_word a s || search is_word b s)
  unfolding search
  search-either a b s = search_from-either a b none s

  is_empty-read :
      (t : Text) (before : Option ℕ) (s : Text)
      → not (is_empty (read is_word t before s)) ≡ starts_with s t
  unfolding read
  is_empty-read [] before s = refl
  is_empty-read (c ∷ t) before [] = refl
  is_empty-read (c ∷ t) before (d ∷ s) = ground (arith, is_empty-read t (some d) s)

  search_from-literal :
      (t : Text) (before : Option ℕ) (s : Text)
      → search_from is_word (literal t) before s ≡ contains t s
  unfolding search_from ends contains
  search_from-literal [] before [] = refl
  search_from-literal (d ∷ t) before [] = refl
  search_from-literal t before (c ∷ s) =
      ground (arith, is_empty-read t before (c ∷ s), search_from-literal t (some c) s)

  -- A search for a literal text is the test whether it is contained.
  pub search-literal : (t s : Text) → search is_word (literal t) s ≡ contains t s
  unfolding search
  search-literal t s = search_from-literal t none s
