-- ===== src/Export/Redline/Resolve.antt =====
-- How `re.sub` of one kind of marker goes through a text, piece by piece.
use orca_validator.Prelude.{
  ℕ, zero, suc, ◌≤◌, ◌≡◌, ◌≢◌, refl, ap, ◌∙◌, false, [], ◌∷◌, ◌++◌, some, none, arith, inl, inr,
  Text, length, length-append, All, Option-cases,
}
use orca_validator.Export.Redline.Bounds.{length-enclosed}
use orca_validator.Export.Redline.{
  cut, enclosed, substitute, is_marker, strip_stray, drop_deleted, keep_inserted, clean_revision,
}

-- No brace stands in the text.
abbrev pub HasNoBrace : Text → Type 0
HasNoBrace t = All (λ c. (c ≢ b'{') × (c ≢ b'}')) t

pub HasNoBrace-append : (s t : Text) → HasNoBrace s → HasNoBrace t → HasNoBrace (s ++ t)
HasNoBrace-append [] t h i = i
HasNoBrace-append (c ∷ s) t h i = (h.0, HasNoBrace-append s t h.1 i)

-- `{mm` and `mm}` for a mark `m`.
module _ (m : ℕ) (f : Text → Text) (m_ne : m ≢ b'}') where
  abbrev pub opening : Text
  opening = b'{' ∷ m ∷ m ∷ []

  abbrev pub closing : Text
  closing = m ∷ m ∷ b'}' ∷ []

  abbrev pub resolve : ℕ → Text → Text
  resolve = substitute opening closing f

  -- The closing marker is found behind a text without braces.
  pub cut_body :
      (t rest : Text) → HasNoBrace t → cut closing (t ++ (closing ++ rest)) ≡ some (t, rest)
  unfolding cut
  cut_body [] rest h = ground arith
  cut_body (c ∷ []) rest h = ground arith
  cut_body (c ∷ d ∷ []) rest h = ground arith
  cut_body (c ∷ d ∷ e ∷ t) rest h = ground (arith, cut_body (d ∷ e ∷ t) rest h.1)

  pub enclosed_body :
      (t rest : Text)
      → HasNoBrace t
      → enclosed opening closing (opening ++ (t ++ (closing ++ rest))) ≡ some (t, rest)
  unfolding enclosed
  enclosed_body t rest h = ground (arith, cut_body t rest h)

  -- More fuel than characters changes nothing.
  pub resolve_fuel : (n k : ℕ) (s : Text) → length s ≤ n → length s ≤ k → resolve n s ≡ resolve k s
  unfolding substitute
  resolve_fuel zero zero s h i = refl
  resolve_fuel zero (suc k) [] h i = refl
  resolve_fuel zero (suc k) (x ∷ s) h i = absurd (omega arith)
  resolve_fuel (suc n) zero [] h i = refl
  resolve_fuel (suc n) zero (x ∷ s) h i = absurd (omega arith)
  resolve_fuel (suc n) (suc k) [] h i = refl
  resolve_fuel (suc n) (suc k) (x ∷ s) h i =
      elim (Option-cases (enclosed opening closing (x ∷ s))) [
        | inl e ↦ rw (e, substitute) (ap (◌∷◌ x) (resolve_fuel n k s (omega arith) (omega arith)))
        | inr ((b, r), e) ↦
            let short = length-enclosed opening closing (x ∷ s) e in
            rw (e, substitute) (ap (◌++◌ (f b)) (resolve_fuel n k r (omega arith) (omega arith)))
      ]

  abbrev pub resolved : Text → Text
  resolved s = resolve (length s) s

  -- A character other than an opening brace is left as it is.
  pub resolved-cons :
      (x : ℕ) (s : Text)
      → enclosed opening closing (x ∷ s) ≡ none
      → resolved (x ∷ s) ≡ x ∷ resolved s
  unfolding substitute
  resolved-cons x s e = rw (e, substitute)

  pub resolved-HasNoBrace : (t s : Text) → HasNoBrace t → resolved (t ++ s) ≡ t ++ resolved s
  resolved-HasNoBrace [] s h = refl
  resolved-HasNoBrace (x ∷ t) s h =
      resolved-cons x (t ++ s) (unfold enclosed in ground arith)
      ∙ ap (◌∷◌ x) (resolved-HasNoBrace t s h.1)

  -- A marked text without braces is replaced as a whole.
  pub resolved_marked :
      (t s : Text) → HasNoBrace t → resolved (opening ++ (t ++ (closing ++ s))) ≡ f t ++ resolved s
  unfolding substitute
  resolved_marked t s h =
      rw (enclosed_body t s h, substitute)
        (ap (◌++◌ (f t)) (
          resolve_fuel (length (m ∷ m ∷ (t ++ (closing ++ s)))) (length s) s
            (omega (arith, length-append t (closing ++ s))) (omega arith)))

module _ (m : ℕ) (f : Text → Text) (m_ne : m ≢ b'}') where
  pub cut-closing-none : (s : Text) → All (λ c. c ≢ b'}') s → cut (closing m f m_ne) s ≡ none
  unfolding cut
  cut-closing-none [] h = refl
  cut-closing-none (a ∷ []) h = ground arith
  cut-closing-none (a ∷ b ∷ []) h = ground arith
  cut-closing-none (a ∷ b ∷ c ∷ s) h = ground (arith, cut-closing-none (b ∷ c ∷ s) h.1)

  -- Without a closing brace nothing matches.
  pub resolved_unclosed : (s : Text) → All (λ c. c ≢ b'}') s → resolved m f m_ne s ≡ s
  unfolding substitute
  resolved_unclosed [] h = refl
  resolved_unclosed (a ∷ []) h = unfold enclosed in ground arith
  resolved_unclosed (a ∷ b ∷ []) h = unfold enclosed in ground arith
  resolved_unclosed (a ∷ b ∷ c ∷ s) h =
      resolved-cons m f m_ne a (b ∷ c ∷ s)
        (unfold enclosed in ground (arith, cut-closing-none s h.1.1.1))
      ∙ ap (◌∷◌ a) (resolved_unclosed (b ∷ c ∷ s) h.1)

pub strip_stray-HasNoBrace : (s : Text) → HasNoBrace s → strip_stray s ≡ s
unfolding strip_stray
strip_stray-HasNoBrace [] h = refl
strip_stray-HasNoBrace (a ∷ []) h = refl
strip_stray-HasNoBrace (a ∷ b ∷ []) h = refl
strip_stray-HasNoBrace (a ∷ b ∷ c ∷ s) h =
    let not_marker : is_marker a b c ≡ false = ground arith in
    rw (not_marker, strip_stray) (ap (◌∷◌ a) (strip_stray-HasNoBrace (b ∷ c ∷ s) h.1))

pub clean_revision-stages :
    (s : Text) → clean_revision (some s) ≡ strip_stray (keep_inserted (drop_deleted s))
unfolding clean_revision drop_deleted keep_inserted strip_stray
clean_revision-stages [] = refl
clean_revision-stages (c ∷ s) = refl
