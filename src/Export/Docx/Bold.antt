-- ===== src/Export/Docx/Bold.antt =====
-- Which parts of a line are bold (backend/export/docx.py, _add_runs).
use orca_validator.Prelude.{
  ℕ, zero, suc, ◌+◌, ◌≡◌, ◌≤◌, refl, ap, ◌∙◌, Bool, true, false, not, ◌&&◌, ◌||◌, List, [], ◌∷◌,
  ◌++◌, none, some, arith, Option-cases, Bool-cases, inl, inr, Text, length, drop, is_empty,
  starts_with, contains, push_char, all,
}
use orca_validator.Export.Redline.{cut}
use orca_validator.Export.Docx.{TextRun, stars, bold_body, bold_at, segments, runs_from, add_runs}

starts_with-drop : (p s : Text) → starts_with s p ≡ true → p ++ drop (length p) s ≡ s
starts_with-drop [] s h = refl
starts_with-drop (c ∷ p) [] h = cc
starts_with-drop (c ∷ p) (d ∷ s) h = ground (arith, h, starts_with-drop p s)

-- What `cut` cuts is put together again.
cut_join : (p s a b : Text) → cut p s ≡ some (a, b) → a ++ (p ++ b) ≡ s
unfolding cut
cut_join p [] a b h = ground (arith, h)
cut_join p (c ∷ s) a b h = elim (Bool-cases (starts_with (c ∷ s) p)) [
  | inl e ↦ ground (arith, h, e, starts_with-drop p (c ∷ s))
  | inr e ↦ elim (Option-cases (cut p s)) [
    | inl d ↦ ground (arith, h, e, d)
    | inr ((a', b'), d) ↦ ground (arith, h, e, d, cut_join p s a' b' d)
  ]
]

bold_body_join :
    (s t body rest : Text)
    → stars ++ t ≡ s
    → bold_body t ≡ some (body, rest)
    → (stars ++ (body ++ (stars ++ rest)) ≡ s) × (is_empty body ≡ false)
unfolding bold_body
bold_body_join s [] body rest e h = cc
bold_body_join s (c ∷ t) body rest e h = elim (Option-cases (cut stars t)) [
  | inl d ↦ ground (arith, h, d)
  | inr ((a, b), d) ↦ ground (arith, h, d, e, cut_join stars t a b d)
]

pub bold_at_join :
    (s body rest : Text)
    → bold_at s ≡ some (body, rest)
    → (stars ++ (body ++ (stars ++ rest)) ≡ s) × (is_empty body ≡ false)
unfolding bold_at
bold_at_join s body rest h = elim (Bool-cases (starts_with s stars)) [
  | inl e ↦
      bold_body_join s (drop 2 s) body rest (starts_with-drop stars s e) (ground (arith, h, e))
  | inr e ↦ ground (arith, h, e)
]

-- Two stars, a character or more, and two stars: at the head of a text, and anywhere in it.
abbrev pub starts_bold : Text → Bool
unfolding contains
starts_bold s = starts_with s stars && contains stars (drop 3 s)

abbrev pub has_bold : Text → Bool
unfolding starts_bold
has_bold [] = false
has_bold (c ∷ s) = let rest = has_bold s in starts_bold (c ∷ s) || rest

-- A run that is not bold has no part that should be.
abbrev pub is_settled : TextRun → Bool
unfolding has_bold
is_settled r = r.bold || not (has_bold r.text)

contains-cut : (p s : Text) → cut p s ≡ none → contains p s ≡ false
unfolding cut contains
contains-cut p [] h = ground (arith, h)
contains-cut p (c ∷ s) h = elim (Bool-cases (starts_with (c ∷ s) p)) [
  | inl e ↦ ground (arith, h, e)
  | inr e ↦ elim (Option-cases (cut p s)) [
    | inl d ↦ ground (arith, e, d, contains-cut p s d)
    | inr ((a, b), d) ↦ ground (arith, h, e, d)
  ]
]

contains_no_text : contains stars [] ≡ false
unfolding contains
contains_no_text = refl

starts_bold-bold_at : (s : Text) → bold_at s ≡ none → starts_bold s ≡ false
unfolding bold_at bold_body starts_bold
starts_bold-bold_at [] h = refl
starts_bold-bold_at (c ∷ []) h = ground arith
starts_bold-bold_at (c ∷ d ∷ []) h = ground (arith, contains_no_text)
starts_bold-bold_at (c ∷ d ∷ e ∷ s) h = elim (Option-cases (cut stars s)) [
  | inl k ↦ ground (arith, h, k, contains-cut stars s k)
  | inr ((a, b), k) ↦ ground (arith, h, k)
]

starts_with-longer : (a b p : Text) → starts_with a p ≡ true → starts_with (a ++ b) p ≡ true
starts_with-longer a b [] h = refl
starts_with-longer [] b (d ∷ p) h = cc
starts_with-longer (c ∷ a) b (d ∷ p) h = ground (arith, h, starts_with-longer a b p)

contains-longer : (a b : Text) → contains stars a ≡ true → contains stars (a ++ b) ≡ true
unfolding contains
contains-longer [] b h = cc
contains-longer (c ∷ a) b h =
    ground (arith, h, contains-longer a b, starts_with-longer (c ∷ a) b stars)

starts_bold-longer : (a b : Text) → starts_bold a ≡ true → starts_bold (a ++ b) ≡ true
unfolding starts_bold
starts_bold-longer [] b h = cc
starts_bold-longer (c ∷ []) b h = absurd (ground (arith, h, contains_no_text))
starts_bold-longer (c ∷ d ∷ []) b h = absurd (ground (arith, h, contains_no_text))
starts_bold-longer (c ∷ d ∷ e ∷ a) b h = ground (arith, h, contains-longer a b)

starts_bold-shorter : (a b : Text) → starts_bold (a ++ b) ≡ false → starts_bold a ≡ false
starts_bold-shorter a b h = elim (Bool-cases (starts_bold a)) [
  | inl e ↦ absurd (let k = starts_bold-longer a b e in cc)
  | inr e ↦ e
]

-- The first segment is plain and stands at the head of the text, and the others are settled.
record IsSplit (s : Text) (segs : List Text) : Type 0 where
  first : Text
  rest : List Text
  tail : Text
  split : segs ≡ first ∷ rest
  head : first ++ tail ≡ s
  plain : has_bold first ≡ false
  settled : all is_settled (runs_from true rest) ≡ true

length-concat : (a b : Text) → length (a ++ b) ≡ length a + length b
length-concat [] b = omega arith
length-concat (c ∷ a) b = omega (arith, length-concat a b)

bold_shorter :
    (n c : ℕ) (s body rest : Text)
    → stars ++ (body ++ (stars ++ rest)) ≡ c ∷ s
    → length s ≤ n
    → length rest ≤ n
bold_shorter n c s body rest e h =
    omega (arith, h, ap length e, length-concat body (stars ++ rest), length-concat stars rest)

settled_next :
    (body first : Text) (rest : List Text)
    → has_bold first ≡ false
    → all is_settled (runs_from true rest) ≡ true
    → all is_settled (runs_from true (body ∷ first ∷ rest)) ≡ true
unfolding runs_from is_settled
settled_next [] [] rest h k = k
settled_next [] (d ∷ first) rest h k = ground (arith, h, k)
settled_next (c ∷ body) [] rest h k = k
settled_next (c ∷ body) (d ∷ first) rest h k = ground (arith, h, k)

IsSplit-segments : (n : ℕ) (s : Text) → length s ≤ n → IsSplit s (segments n s)
unfolding segments runs_from has_bold is_settled
IsSplit-segments zero [] h = record {
  first = [];
  rest = [];
  tail = [];
  split = refl;
  head = refl;
  plain = refl;
  settled = refl;
}
IsSplit-segments zero (c ∷ s) h = absurd (omega (arith, h))
IsSplit-segments (suc n) [] h = record {
  first = [];
  rest = [];
  tail = [];
  split = refl;
  head = refl;
  plain = refl;
  settled = refl;
}
IsSplit-segments (suc n) (c ∷ s) h = elim (Option-cases (bold_at (c ∷ s))) [
  | inl e ↦
      let before = IsSplit-segments n s (omega (arith, h)) in
      let whole = ap (◌∷◌ c) before.head in
      rw (e, segments)
        (record {
          first = c ∷ before.first;
          rest = before.rest;
          tail = before.tail;
          split = ap (push_char c) before.split;
          head = whole;
          plain = ground (
            arith,
            before.plain,
            starts_bold-shorter (c ∷ before.first) before.tail
                (ap starts_bold whole ∙ starts_bold-bold_at (c ∷ s) e),
          );
          settled = before.settled;
        })
  | inr ((body, rest), e) ↦
      let j = bold_at_join (c ∷ s) body rest e in
      let behind = IsSplit-segments n rest (bold_shorter n c s body rest j.0 (omega (arith, h))) in
      rw (e, segments)
        (record {
          first = [];
          rest = body ∷ segments n rest;
          tail = c ∷ s;
          split = refl;
          head = refl;
          plain = refl;
          settled =
              rw behind.split
                (settled_next body behind.first behind.rest behind.plain behind.settled);
        })
]

settled_first :
    (first : Text) (rest : List Text)
    → has_bold first ≡ false
    → all is_settled (runs_from true rest) ≡ true
    → all is_settled (runs_from false (first ∷ rest)) ≡ true
unfolding runs_from is_settled
settled_first [] rest h k = k
settled_first (c ∷ first) rest h k = ground (arith, h, k)

-- No run of a text that is not bold has a part that should be bold.
pub add_runs_settled : (s : Text) → all is_settled (add_runs s) ≡ true
unfolding add_runs
add_runs_settled s =
    let split = IsSplit-segments (length s) s (omega arith) in
    ap (λ segs. all is_settled (runs_from false segs)) split.split
    ∙ settled_first split.first split.rest split.plain split.settled
