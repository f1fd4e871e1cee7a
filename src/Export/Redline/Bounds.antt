-- ===== src/Export/Redline/Bounds.antt =====
-- The clean document is never longer than the redline.
use orca_validator.Prelude.{
  ℕ, zero, suc, ◌+◌, ◌-◌, ◌≤◌, ◌≡◌, [], ◌∷◌, some, arith, inl, inr, Text, lit, length,
  length-append, length-drop, drop, Bool-cases, Option-cases,
}
use orca_validator.Export.Redline.{
  cut, enclosed, substitute, drop_deleted, keep_inserted, is_marker, strip_stray, clean_revision,
}

length-cut : (p s : Text) {a b : Text} → cut p s ≡ some (a, b) → length a + length b ≤ length s
unfolding cut
length-cut p [] h = ground arith
length-cut p (c ∷ s) h = elim (Option-cases (cut p s)) [
  | inl e ↦ ground (arith, length-drop (length p) (c ∷ s))
  | inr (r, e) ↦ ground (arith, length-drop (length p) (c ∷ s), length-cut p s e)
]

pub length-enclosed :
    (o c s : Text) {a b : Text}
    → enclosed o c s ≡ some (a, b)
    → length a + length b ≤ length s - length o
unfolding enclosed
length-enclosed o c s {a} {b} h =
    ground (arith, length-drop (length o) s, length-cut c (drop (length o) s) {a = a} {b = b})

module _ (o c : Text) (f : Text → Text) (short : (b : Text) → length (f b) ≤ length b) where
  length-substitute : (n : ℕ) (s : Text) → length (substitute o c f n s) ≤ length s
  unfolding substitute
  length-substitute zero s = omega arith
  length-substitute (suc n) [] = omega arith
  length-substitute (suc n) (x ∷ s) = elim (Option-cases (enclosed o c (x ∷ s))) [
    | inl e ↦ rw (e, substitute) (omega (arith, length-substitute n s))
    | inr ((b, r), e) ↦
        rw (e, substitute)
          (omega (
            arith,
            length-append (f b) (substitute o c f n r),
            short b,
            length-enclosed o c (x ∷ s) e,
            length-substitute n r,
          ))
  ]

length-strip_stray : (s : Text) → length (strip_stray s) ≤ length s
unfolding strip_stray
length-strip_stray [] = omega arith
length-strip_stray (a ∷ []) = omega arith
length-strip_stray (a ∷ b ∷ []) = omega arith
length-strip_stray (a ∷ b ∷ c ∷ s) = elim (Bool-cases (is_marker a b c)) [
  | inl e ↦ rw (e, strip_stray) (omega (arith, length-strip_stray s))
  | inr e ↦ rw (e, strip_stray) (omega (arith, length-strip_stray (b ∷ c ∷ s)))
]

-- Resolving a redline never lengthens it, whatever markers it holds, balanced or not.
pub length-clean_revision : (s : Text) → length (clean_revision (some s)) ≤ length s
unfolding clean_revision drop_deleted keep_inserted
length-clean_revision [] = omega arith
length-clean_revision (x ∷ s) =
    let d = substitute (lit "{--") (lit "--}") (λ _. []) (length (x ∷ s)) (x ∷ s) in
    omega (
      arith,
      length-strip_stray (substitute (lit "{++") (lit "++}") (λ b. b) (length d) d),
      length-substitute (lit "{++") (lit "++}") (λ b. b) (λ b. omega arith) (length d) d,
      length-substitute (lit "{--") (lit "--}") (λ _. []) (λ b. omega arith) (length (x ∷ s))
          (x ∷ s),
    )
