-- ===== src/Llm/Machine/Repaired.antt =====
-- The header of a machine as the model's text is handed on.
use orca_validator.Prelude.{
  ℕ, ◌≡◌, refl, ap, ◌∙◌, Bool, true, false, [], ◌∷◌, ◌++◌, arith, Text, lit, strip, lstrip, rstrip,
  is_space, span, Bool-cases, inl, inr,
}
use orca_validator.Llm.Machine.{after_hash, has_keyword, unfence, repair, repaired}

rstrip-rstrip : (s : Text) → rstrip (rstrip s) ≡ rstrip s
unfolding rstrip
rstrip-rstrip [] = refl
rstrip-rstrip (c ∷ s) = ground (arith, rstrip-rstrip s)

-- A text without white space at its end keeps its end when its head is trimmed.
rstrip-lstrip : (s : Text) → rstrip s ≡ s → rstrip (lstrip s) ≡ lstrip s
unfolding rstrip lstrip
rstrip-lstrip [] h = refl
rstrip-lstrip (c ∷ s) h = ground (arith, h, rstrip-lstrip s)

lstrip-lstrip : (s : Text) → lstrip (lstrip s) ≡ lstrip s
unfolding lstrip
lstrip-lstrip [] = refl
lstrip-lstrip (c ∷ s) = ground (arith, lstrip-lstrip s)

strip_idem : (s : Text) → strip (strip s) ≡ strip s
unfolding strip
strip_idem s = ap lstrip (rstrip-lstrip (rstrip s) (rstrip-rstrip s)) ∙ lstrip-lstrip (rstrip s)

module _ (is_word : ℕ → Bool) where
  has_keyword_retitled :
      (rest : Text)
      → is_word b' ' ≡ false
      → has_keyword is_word (strip (lit "# machine " ++ rest)) ≡ true
  unfolding has_keyword strip rstrip lstrip span is_space
  has_keyword_retitled rest h = ground (arith, h)

  has_keyword-repair :
      (md : Text)
      → is_word b' ' ≡ false
      → strip md ≡ md
      → (after_hash md).0 ≡ true
      → has_keyword is_word (strip (repair is_word md)) ≡ true
  unfolding repair
  has_keyword-repair md h trimmed titled = elim (Bool-cases (has_keyword is_word md)) [
    | inl e ↦ rw e (rw trimmed e)
    | inr e ↦ rw e (rw titled (has_keyword_retitled (after_hash md).1 h))
  ]

  -- Where a blank is no letter: if the model's text, without its fences and the white space around
  -- it, begins with a hash and white space, then the text that is handed on has the header "machine".
  pub has_keyword-repaired :
      (content : Text)
      → is_word b' ' ≡ false
      → (after_hash (strip (unfence (strip content)))).0 ≡ true
      → has_keyword is_word (repaired is_word content) ≡ true
  unfolding repaired
  has_keyword-repaired content h titled =
      has_keyword-repair (strip (unfence (strip content))) h (strip_idem (unfence (strip content)))
        titled
