-- ===== src/System/Distinct.antt =====
-- The identifiers of the runs are distinct, so that a run is found by its own.
use orca_validator.Prelude.{
  ◌≡◌, refl, sym, ap, ◌∙◌, Bool, true, false, not, ◌&&◌, ◌||◌, List, [], ◌∷◌, ◌++◌, none, some, map,
  any, arith, Text, text_eq, text_eq_iff, inl, inr, Bool-cases,
}
use orca_validator.Pipeline.Database.{find, replace}

abbrev pub are_distinct : List Text → Bool
are_distinct [] = true
are_distinct (k ∷ ks) = not (any (λ j. text_eq j k) ks) && are_distinct ks

any-last : (p : Text → Bool) (ks : List Text) (k : Text) → any p (ks ++ k ∷ []) ≡ (any p ks || p k)
any-last p [] k = ground arith
any-last p (j ∷ ks) k = ground (arith, any-last p ks k)

are_distinct-append :
    (ks : List Text) (k : Text)
    → any (λ j. text_eq j k) ks ≡ false
    → are_distinct ks ≡ true
    → are_distinct (ks ++ k ∷ []) ≡ true
are_distinct-append [] k h d = refl
are_distinct-append (j ∷ ks) k h d = ground (
  arith,
  are_distinct-append ks k,
  any-last (λ i. text_eq i j) ks k,
  text_eq_iff j k,
  text_eq_iff k j,
)

module _ {A : Type 0} (key : A → Text) where
  map-replace : (r : A) (rows : List A) → map key (replace key r rows) ≡ map key rows
  unfolding replace
  map-replace r [] = refl
  map-replace r (a ∷ rows) = elim (Bool-cases (text_eq (key a) (key r))) [
    | inl e ↦ rw e (ap (λ k. k ∷ map key rows) (sym ((text_eq_iff (key a) (key r)).0 e)))
    | inr e ↦ rw e (ap (λ ks. key a ∷ ks) (map-replace r rows))
  ]

  -- A key that finds no row is no row's.
  find-none :
      (k : Text) (rows : List A)
      → find key k rows ≡ none
      → any (λ j. text_eq j k) (map key rows) ≡ false
  unfolding find
  find-none k [] h = refl
  find-none k (a ∷ rows) h = ground (arith, find-none k rows)

  find-some :
      (k : Text) (r : A) (rows : List A)
      → find key k rows ≡ some r
      → any (λ j. text_eq j k) (map key rows) ≡ true
  unfolding find
  find-some k r [] h = ground arith
  find-some k r (a ∷ rows) h = ground (arith, find-some k r rows)

  pub are_distinct-replace :
      (r : A) (rows : List A)
      → are_distinct (map key rows) ≡ true
      → are_distinct (map key (replace key r rows)) ≡ true
  are_distinct-replace r rows h = ap are_distinct (map-replace r rows) ∙ h

  map-last : (r : A) (rows : List A) → map key (rows ++ r ∷ []) ≡ map key rows ++ key r ∷ []
  map-last r [] = refl
  map-last r (a ∷ rows) = ap (λ ks. key a ∷ ks) (map-last r rows)

  pub are_distinct-added :
      (r : A) (rows : List A)
      → find key (key r) rows ≡ none
      → are_distinct (map key rows) ≡ true
      → are_distinct (map key (rows ++ r ∷ [])) ≡ true
  are_distinct-added r rows h d =
      ap are_distinct (map-last r rows)
      ∙ are_distinct-append (map key rows) (key r) (find-none (key r) rows h) d

  -- A row in front of distinct others hides none of them.
  pub find-behind :
      (a : A) (k : Text) (r : A) (rows : List A)
      → are_distinct (map key (a ∷ rows)) ≡ true
      → find key k rows ≡ some r
      → find key k (a ∷ rows) ≡ some r
  unfolding find
  find-behind a k r rows h e = elim (Bool-cases (text_eq (key a) k)) [
    | inr other ↦ rw other e
    | inl same ↦
        let own = rw (sym ((text_eq_iff (key a) k).0 same)) at (find-some k r rows e) in
        absurd (ground (arith, own, h))
  ]
