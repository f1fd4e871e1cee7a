-- ===== src/Llm/Chunks/Content.antt =====
-- No character other than white space is lost, and none is moved.
use orca_validator.Prelude.{
  visible, visible-lstrip, visible-strip, ℕ, zero, suc, ◌≡◌, refl, sym, ap, ◌∙◌, List, [], ◌∷◌,
  ◌++◌, Option, none, some, inl, inr, append-nil, ltb, Text, length, take, drop, keep-append,
  take-append-drop, is_empty, strip, lstrip, Bool-cases, if◌then◌else◌,
}
use orca_validator.Llm.Chunks.{break_point, split_loop, or_whole, split_into_chunks}

abbrev pub concat : List Text → Text
concat [] = []
concat (c ∷ cs) = c ++ concat cs

-- The chunks, if there are any, show what `r` shows.
abbrev Shows : Text → Option (List Text) → Type 0
Shows r none = Unit
Shows r (some cs) = visible (concat cs) ≡ visible r

-- Cutting at `n` and dropping the white space behind the cut.
Shows-cons :
    (n : ℕ) (r : Text) (o : Option (List Text))
    → Shows (lstrip (drop n r)) o
    → Shows r (elim o [ none ↦ none | some cs ↦ some (take n r ∷ cs) ])
Shows-cons n r none h = tt
Shows-cons n r (some cs) h =
    keep-append _ (take n r) (concat cs)
    ∙ ap (◌++◌ (visible (take n r))) (h ∙ visible-lstrip (drop n r))
    ∙ sym (keep-append _ (take n r) (drop n r))
    ∙ ap visible (take-append-drop n r)

Shows-last : (r : Text) → Shows r (some (if is_empty r then [] else r ∷ []))
Shows-last [] = refl
Shows-last (c ∷ r) = ap visible (append-nil (c ∷ r))

split_loop-Shows : (fuel max : ℕ) (r : Text) → Shows r (split_loop fuel max r)
unfolding split_loop
split_loop-Shows zero max r = tt
split_loop-Shows (suc fuel) max r =
    let brk = break_point max (take max r) in
    elim (Bool-cases (ltb max (length r))) [
      | inl long ↦ rw long (Shows-cons brk r _ (split_loop-Shows fuel max (lstrip (drop brk r))))
      | inr short ↦ rw short (Shows-last r)
    ]

or_whole-Shows :
    (text : Text) (o : Option (List Text)) → Shows (strip text) o → Shows text (or_whole text o)
unfolding or_whole
or_whole-Shows text none h = tt
or_whole-Shows text (some []) h = ap visible (append-nil text)
or_whole-Shows text (some (d ∷ ds)) h = h ∙ visible-strip text

-- However the text is cut, the chunks put together hold the same characters in the same order, up
-- to white space.
pub visible-split_into_chunks :
    (text : Text) (max : ℕ) (cs : List Text)
    → split_into_chunks text max ≡ some cs
    → visible (concat cs) ≡ visible text
unfolding split_into_chunks
visible-split_into_chunks text max cs h =
    let o = split_loop (suc (length text)) max (strip text) in
    let shows = or_whole-Shows text o (split_loop-Shows (suc (length text)) max (strip text)) in
    rw h at shows
