-- ===== src/Prelude/Strings.antt =====
-- Python texts as lists of code points, and the methods of `str` that the program calls.
use Prim.Native.Nat.{ℕ, suc}
use Prim.Native.Char.{code}
use Prim.Native.String.{String}
use mathlib.Core.Path.{◌≡◌, refl}
use mathlib.Core.Logic.{◌↔◌}
use mathlib.Core.Bool.{Bool, true, false, ◌&&◌, ◌||◌}
use mathlib.Core.List.{List, [], ◌∷◌, ◌++◌}
use mathlib.Core.Option.{Option, none, some}
use native.Mathlib.Omega.{arith}
use orca_validator.Prelude.Tests.{◌==◌, leb, ltb, if◌then◌else◌}
use orca_validator.Prelude.Lists.{is_empty}

abbrev pub Text : Type 0
Text = List ℕ

-- The code points of a literal.
abbrev pub lit : String → Text
lit String.[] = []
lit (String.◌∷◌ c s) = code c ∷ lit s

abbrev pub text_eq : Text → Text → Bool
text_eq [] [] = true
text_eq [] (y ∷ ys) = false
text_eq (x ∷ xs) [] = false
text_eq (x ∷ xs) (y ∷ ys) = (x == y) && text_eq xs ys

pub text_eq_iff : (s t : Text) → (text_eq s t ≡ true) ↔ (s ≡ t)
text_eq_iff [] [] = ground arith
text_eq_iff [] (y ∷ ys) = ground arith
text_eq_iff (x ∷ xs) [] = ground arith
text_eq_iff (x ∷ xs) (y ∷ ys) = ground (arith, text_eq_iff xs ys)

pub text_eq_refl : (s : Text) → text_eq s s ≡ true
text_eq_refl s = (text_eq_iff s s).1 refl

-- `str.isspace` of one character: the white space that `strip` removes.
unfoldable pub is_space : ℕ → Bool
is_space c =
    (leb 9 c && leb c 13)
    || (leb 28 c && leb c 32)
    || (c == 0x85)
    || (c == 0xa0)
    || (c == 0x1680)
    || (leb 0x2000 c && leb c 0x200a)
    || (c == 0x2028)
    || (c == 0x2029)
    || (c == 0x202f)
    || (c == 0x205f)
    || (c == 0x3000)

-- `s.lstrip()`
unfoldable pub lstrip : Text → Text
lstrip [] = []
lstrip (c ∷ s) = if is_space c then lstrip s else c ∷ s

-- `s.rstrip()`
unfoldable pub rstrip : Text → Text
rstrip [] = []
rstrip (c ∷ s) = let r = rstrip s in if is_space c && is_empty r then [] else c ∷ r

-- `s.strip()`
unfoldable pub strip : Text → Text
unfolding lstrip rstrip
strip s = lstrip (rstrip s)

-- `s.startswith(p)`
abbrev pub starts_with : Text → Text → Bool
starts_with s [] = true
starts_with [] (p ∷ ps) = false
starts_with (c ∷ s) (p ∷ ps) = (c == p) && starts_with s ps

-- `p in s`
unfoldable pub contains : Text → Text → Bool
contains p [] = is_empty p
contains p (c ∷ s) = starts_with (c ∷ s) p || contains p s

-- `s.rfind(p)`, with `none` for -1
unfoldable pub rfind : Text → Text → Option ℕ
rfind p [] = if is_empty p then some 0 else none
rfind p (c ∷ s) = elim (rfind p s) [
  | some i ↦ some (suc i)
  | none ↦ if starts_with (c ∷ s) p then some 0 else none
]

-- `sep.join(parts)`
unfoldable pub join : Text → List Text → Text
join sep [] = []
join sep (p ∷ []) = p
join sep (p ∷ q ∷ rest) = p ++ (sep ++ join sep (q ∷ rest))

-- `s.split(p)[0]`, for a `p` that is not empty: the text before the first `p`
unfoldable pub before : Text → Text → Text
before p [] = []
before p (c ∷ s) = let rest = before p s in if starts_with (c ∷ s) p then [] else c ∷ rest

-- The order of `str`: by code points.
abbrev pub comes_first : Text → Text → Bool
comes_first s [] = false
comes_first [] (d ∷ t) = true
comes_first (c ∷ s) (d ∷ t) = ltb c d || (c == d) && comes_first s t
