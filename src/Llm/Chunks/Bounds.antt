-- ===== src/Llm/Chunks/Bounds.antt =====
-- Termination of the split, and the size and number of the chunks.
use orca_validator.Prelude.{
  ℕ, zero, suc, ◌+◌, ◌*◌, ◌≤◌, ◌<◌, ◌≡◌, ◌≢◌, refl, List, [], ◌∷◌, Option, none, some, inl, inr,
  arith, ltb, ltb→lt, ltb→le, if◌then◌else◌, Text, lit, length, take, drop, length-take,
  length-drop, is_empty, rfind, strip, lstrip, rstrip, All, Bool-cases,
}
use orca_validator.Llm.Chunks.{break_point, split_loop, or_whole, split_into_chunks}

abbrev Within : ℕ → Option ℕ → Type 0
Within n none = Unit
Within n (some i) = i ≤ n

rfind-Within : (p s : Text) → Within (length s) (rfind p s)
unfolding rfind
rfind-Within p [] = ground arith
rfind-Within p (c ∷ s) = ground (arith, rfind-Within p s)

-- The break lies in the window, in its second half, and is never 0.
break_point_bounds :
    (max : ℕ) (w : Text)
    → 0 < max
    → length w ≤ max
    → (break_point max w ≤ max) × (max ≤ 2 * break_point max w)
unfolding break_point
break_point_bounds max w pos fits =
    ground (arith, rfind-Within (lit "\n\n") w, rfind-Within (lit "\n") w, rfind-Within (lit " ") w)

length-lstrip : (s : Text) → length (lstrip s) ≤ length s
unfolding lstrip
length-lstrip [] = omega arith
length-lstrip (c ∷ s) = ground (arith, length-lstrip s)

length-rstrip : (s : Text) → length (rstrip s) ≤ length s
unfolding rstrip
length-rstrip [] = omega arith
length-rstrip (c ∷ s) = ground (arith, length-rstrip s)

length-strip : (s : Text) → length (strip s) ≤ length s
unfolding strip
length-strip s = omega (arith, length-lstrip (rstrip s), length-rstrip s)

-- What one round of the loop does to a text that is too long.
record IsCut (max : ℕ) (r c r' : Text) : Type 0 where
  fits : length c ≤ max
  half : max ≤ 2 * length c
  splits : length c + length r' ≤ length r

round-IsCut :
    (max : ℕ) (r : Text)
    → 0 < max
    → max < length r
    → IsCut max r
        (take (break_point max (take max r)) r)
        (lstrip (drop (break_point max (take max r)) r))
round-IsCut max r pos long =
    let w = take max r in
    omega (
      arith,
      length-lstrip (drop (break_point max w) r),
      length-drop (break_point max w) r,
      length-take (break_point max w) r,
      length-take max r,
      break_point_bounds max w pos (omega (arith, length-take max r)),
    )

-- The loop has ended, its chunks are not empty and of at most `max` characters, and there are not
-- more of them than half-full chunks would be.
abbrev Chunked : ℕ → Text → Option (List Text) → Type 0
Chunked max r none = ⊥
Chunked max r (some cs) =
    All (λ c. (0 < length c) × (length c ≤ max)) cs × (max * length cs ≤ 2 * length r + max)

Chunked-parts :
    (max : ℕ) (r : Text) {o : Option (List Text)}
    → Chunked max r o
    → (cs : List Text) × (o ≡ some cs)
      × All (λ c. (0 < length c) × (length c ≤ max)) cs
      × (max * length cs ≤ 2 * length r + max)
Chunked-parts max r {o = none} h = absurd h
Chunked-parts max r {o = some cs} h = (cs, refl, h.0, h.1)

Chunked-cons :
    (max : ℕ) {r c r' : Text} (o : Option (List Text))
    → 0 < max
    → IsCut max r c r'
    → Chunked max r' o
    → Chunked max r (elim o [ none ↦ none | some cs ↦ some (c ∷ cs) ])
Chunked-cons max none pos cut h = h
Chunked-cons max (some cs) pos cut h = (((omega arith, cut.fits), h.0), omega arith)

last-Chunked :
    (max : ℕ) (r : Text) → length r ≤ max → Chunked max r (some (if is_empty r then [] else r ∷ []))
last-Chunked max [] short = omega arith
last-Chunked max (c ∷ r) short = omega arith

split_loop-Chunked :
    (fuel max : ℕ) (r : Text) → 0 < max → length r < fuel → Chunked max r (split_loop fuel max r)
unfolding split_loop
split_loop-Chunked zero max r pos enough = absurd (omega arith)
split_loop-Chunked (suc fuel) max r pos enough = elim (Bool-cases (ltb max (length r))) [
  | inl long ↦
      let cut = round-IsCut max r pos (ltb→lt max (length r) long) in
      rw long (
        Chunked-cons max (split_loop fuel max (lstrip (drop (break_point max (take max r)) r))) pos
          cut
          (split_loop-Chunked fuel max (lstrip (drop (break_point max (take max r)) r)) pos
            (omega arith)))
  | inr short ↦ rw short (last-Chunked max r (ltb→le max (length r) short))
]

split_loop_nil : (fuel max : ℕ) (r : Text) → split_loop fuel max r ≡ some [] → r ≡ []
unfolding split_loop
split_loop_nil zero max r h = cc
split_loop_nil (suc fuel) max [] h = refl
split_loop_nil (suc fuel) max (c ∷ r) h = ground arith

or_whole-Chunked :
    (max : ℕ) (text : Text) (o : Option (List Text))
    → o ≢ some []
    → Chunked max (strip text) o
    → Chunked max text (or_whole text o)
unfolding or_whole
or_whole-Chunked max text none ne h = h
or_whole-Chunked max text (some []) ne h = absurd (ne refl)
or_whole-Chunked max text (some (c ∷ cs)) ne h = (h.0, omega (arith, h.1, length-strip text))

-- For a positive `max` and a text that is not all white space, the split ends, and gives chunks
-- that are not empty, of at most `max` characters each, `max` times the number of which is at most
-- twice the length of the text plus `max`.
pub split_into_chunks-Chunked :
    (text : Text) (max : ℕ)
    → 0 < max
    → strip text ≢ []
    → (cs : List Text) × (split_into_chunks text max ≡ some cs)
      × All (λ c. (0 < length c) × (length c ≤ max)) cs
      × (max * length cs ≤ 2 * length text + max)
unfolding split_into_chunks
split_into_chunks-Chunked text max pos ne = Chunked-parts max text (
    or_whole-Chunked max text _ (λ e. ne (split_loop_nil (suc (length text)) max (strip text) e))
      (split_loop-Chunked (suc (length text)) max (strip text) pos
        (omega (arith, length-strip text))))
