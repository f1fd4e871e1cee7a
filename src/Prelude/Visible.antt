-- ===== src/Prelude/Visible.antt =====
-- The characters of a text that are not white space: what trimming leaves alone.
use mathlib.Core.Path.{◌≡◌, refl, ap, sym, ◌∙◌}
use mathlib.Core.Bool.{true, not}
use mathlib.Core.Logic.{inl, inr}
use mathlib.Core.List.{[], ◌∷◌}
use native.Mathlib.Omega.{arith}
use orca_validator.Prelude.Tests.{Bool-cases}
use orca_validator.Prelude.Lists.{keep, is_empty}
use orca_validator.Prelude.Strings.{Text, is_space, lstrip, rstrip, strip}

-- The characters that are not white space, in order.
abbrev pub visible : Text → Text
visible s = keep (λ c. not (is_space c)) s

pub visible-lstrip : (s : Text) → visible (lstrip s) ≡ visible s
unfolding lstrip
visible-lstrip [] = refl
visible-lstrip (c ∷ s) = ground (arith, visible-lstrip s)

pub visible-rstrip : (s : Text) → visible (rstrip s) ≡ visible s
unfolding rstrip
visible-rstrip [] = refl
visible-rstrip (c ∷ s) = ground (arith, visible-rstrip s)

pub visible-strip : (s : Text) → visible (strip s) ≡ visible s
unfolding strip
visible-strip s = visible-lstrip (rstrip s) ∙ visible-rstrip s

is_empty-rstrip : (s : Text) → is_empty (visible s) ≡ true → is_empty (rstrip s) ≡ true
unfolding rstrip
is_empty-rstrip [] h = refl
is_empty-rstrip (c ∷ s) h = ground (arith, is_empty-rstrip s)

is_empty-lstrip : (s : Text) → is_empty s ≡ true → is_empty (lstrip s) ≡ true
unfolding lstrip
is_empty-lstrip [] h = refl
is_empty-lstrip (c ∷ s) h = cc

is_empty-visible : (s : Text) → is_empty s ≡ true → is_empty (visible s) ≡ true
is_empty-visible [] h = refl
is_empty-visible (c ∷ s) h = cc

-- What `strip` leaves is empty exactly where nothing is visible.
pub is_empty-strip : (s : Text) → is_empty (strip s) ≡ is_empty (visible s)
unfolding strip
is_empty-strip s = elim (Bool-cases (is_empty (visible s))) [
  | inl e ↦ rw e (is_empty-lstrip (rstrip s) (is_empty-rstrip s e))
  | inr e ↦ elim (Bool-cases (is_empty (lstrip (rstrip s)))) [
    | inl d ↦ rw d (sym (is_empty-visible (lstrip (rstrip s)) d) ∙ ap is_empty (visible-strip s))
    | inr d ↦ rw d (sym e)
  ]
]

-- Stripping a second time leaves a text where the first did.
pub is_empty-strip-strip : (s : Text) → is_empty (strip (strip s)) ≡ is_empty (strip s)
is_empty-strip-strip s =
    is_empty-strip (strip s) ∙ ap is_empty (visible-strip s) ∙ sym (is_empty-strip s)
