-- ===== src/Prelude/Dicts.antt =====
-- Python's `dict` with `str` keys, in insertion order: an overwritten key keeps its place.
use mathlib.Core.Path.{◌≡◌, refl}
use mathlib.Core.Bool.{Bool, true, false}
use mathlib.Core.List.{List, [], ◌∷◌}
use mathlib.Core.Option.{Option, none, some}
use native.Mathlib.Omega.{arith}
use orca_validator.Prelude.Tests.{if◌then◌else◌}
use orca_validator.Prelude.Strings.{Text, text_eq, text_eq_iff}

abbrev pub Dict {ℓ} : Type ℓ → Type ℓ
Dict V = List (Text × V)

module _ {ℓ} {V : Type ℓ} where
  -- `d.get(k)`
  unfoldable pub get : Text → Dict V → Option V
  get k [] = none
  get k ((j, v) ∷ d) = if text_eq j k then some v else get k d

  -- `k in d`
  unfoldable pub has_key : Text → Dict V → Bool
  has_key k [] = false
  has_key k ((j, v) ∷ d) = if text_eq j k then true else has_key k d

  -- `d[k] = v`
  unfoldable pub put : Text → V → Dict V → Dict V
  put k v [] = (k, v) ∷ []
  put k v ((j, w) ∷ d) = if text_eq j k then (j, v) ∷ d else (j, w) ∷ put k v d

  -- `d.update(e)`
  unfoldable pub update : Dict V → Dict V → Dict V
  update d [] = d
  update d ((k, v) ∷ e) = update (put k v d) e

  pub get-put :
      (k j : Text) (v : V) (d : Dict V)
      → get j (put k v d) ≡ (if text_eq k j then some v else get j d)
  unfolding get put
  get-put k j v [] = refl
  get-put k j v ((i, w) ∷ d) =
      ground (arith, text_eq_iff k j, text_eq_iff i k, text_eq_iff i j, get-put k j v d)

  pub has_key-put :
      (k j : Text) (v : V) (d : Dict V)
      → has_key j (put k v d) ≡ (if text_eq k j then true else has_key j d)
  unfolding has_key put
  has_key-put k j v [] = refl
  has_key-put k j v ((i, w) ∷ d) =
      ground (arith, text_eq_iff k j, text_eq_iff i k, text_eq_iff i j, has_key-put k j v d)

  pub has_key-get : (k : Text) (d : Dict V) → has_key k d ≡ false → get k d ≡ none
  unfolding has_key get
  has_key-get k [] h = refl
  has_key-get k ((j, v) ∷ d) h = ground (arith, has_key-get k d)
