-- ===== src/Prelude/Lines.antt =====
-- Texts cut into lines and cells: `str.splitlines`, `str.split`, and runs of characters.
use Prim.Native.Nat.{ℕ}
use mathlib.Core.Path.{◌≡◌, refl, ap, sym, ◌∙◌}
use mathlib.Core.Bool.{Bool, true, false, not, ◌&&◌, ◌||◌}
use mathlib.Core.List.{List, [], ◌∷◌, ◌++◌}
use native.Mathlib.Omega.{arith}
use orca_validator.Prelude.Tests.{◌==◌, leb, if◌then◌else◌}
use orca_validator.Prelude.Lists.{is_empty, all}
use orca_validator.Prelude.Strings.{Text}

-- The characters that end a line.
unfoldable pub is_break : ℕ → Bool
is_break c =
    (leb 10 c && leb c 13) || (leb 28 c && leb c 30) || c == 0x85 || c == 0x2028 || c == 0x2029

-- A character in front of the first line.
abbrev pub push_char : ℕ → List Text → List Text
push_char c [] = (c ∷ []) ∷ []
push_char c (line ∷ lines) = (c ∷ line) ∷ lines

abbrev pub starts_feed : Text → Bool
starts_feed [] = false
starts_feed (c ∷ s) = c == 10

-- `s.splitlines()`; a carriage return before a line feed is one break with it.
unfoldable pub splitlines : Text → List Text
splitlines [] = []
splitlines (c ∷ s) =
    let lines = splitlines s in
    if is_break c
    then if (c == 13) && starts_feed s then lines else [] ∷ lines
    else push_char c lines

-- `s.split(c)` for one character
unfoldable pub split : ℕ → Text → List Text
split sep [] = [] ∷ []
split sep (c ∷ s) = let cells = split sep s in if c == sep then [] ∷ cells else push_char c cells

-- The longest run of characters of a kind at the head, and what follows it.
unfoldable pub span : (ℕ → Bool) → Text → Text × Text
span p [] = ([], [])
span p (c ∷ s) = let (run, rest) = span p s in if p c then (c ∷ run, rest) else ([], c ∷ s)

splitlines_cons :
    (c : ℕ) (s : Text)
    → splitlines (c ∷ s) ≡ (
        if is_break c
        then if (c == 13) && starts_feed s then splitlines s else [] ∷ splitlines s
        else push_char c (splitlines s))
unfolding splitlines
splitlines_cons c s = refl

splitlines_last : (c : ℕ) → is_break c ≡ false → splitlines (c ∷ []) ≡ (c ∷ []) ∷ []
unfolding splitlines
splitlines_last c h = rw h refl

-- A line without a break, and the break behind it, are one line before the others.
pub splitlines-feed :
    (line s : Text)
    → all (λ c. not (is_break c)) line ≡ true
    → splitlines (line ++ 10 ∷ s) ≡ line ∷ splitlines s
unfolding splitlines is_break
splitlines-feed [] s h = refl
splitlines-feed (c ∷ line) s h = ground (arith, splitlines-feed line s)

-- The text does not end a line where it ends.
abbrev pub is_open : Text → Bool
is_open [] = false
is_open (c ∷ []) = not (is_break c)
is_open (c ∷ d ∷ s) = is_open (d ∷ s)

push_char_filled : (c : ℕ) (ls : List Text) → is_empty (push_char c ls) ≡ false
push_char_filled c [] = refl
push_char_filled c (l ∷ ls) = refl

splitlines_filled : (c : ℕ) (s : Text) → is_empty (splitlines (c ∷ s)) ≡ false
unfolding splitlines
splitlines_filled c [] = ground (arith, push_char_filled c [])
splitlines_filled c (d ∷ s) =
    ground (arith, splitlines_filled d s, push_char_filled c (splitlines (d ∷ s)))

push_char-append :
    (c : ℕ) (ls ks : List Text)
    → is_empty ls ≡ false
    → push_char c (ls ++ ks) ≡ push_char c ls ++ ks
push_char-append c [] ks h = cc
push_char-append c (l ∷ ls) ks h = refl

-- One character more, where the lines of what follows are known.
splitlines_step :
    (c d : ℕ) (s s' : Text) (ks : List Text)
    → splitlines (d ∷ s') ≡ splitlines (d ∷ s) ++ ks
    → splitlines (c ∷ d ∷ s') ≡ splitlines (c ∷ d ∷ s) ++ ks
splitlines_step c d s s' ks h =
    splitlines_cons c (d ∷ s')
    ∙ ap
        (λ lines.
          if is_break c
          then (if (c == 13) && (d == 10) then lines else [] ∷ lines)
          else push_char c lines)
        h
    ∙ either_way
    ∙ ap (λ lines. lines ++ ks) (sym (splitlines_cons c (d ∷ s)))
  where
    either_way :
        (if is_break c
          then if (c == 13) && (d == 10)
            then splitlines (d ∷ s) ++ ks
            else [] ∷ (splitlines (d ∷ s) ++ ks)
          else push_char c (splitlines (d ∷ s) ++ ks))
        ≡ (if is_break c
            then if (c == 13) && (d == 10) then splitlines (d ∷ s) else [] ∷ splitlines (d ∷ s)
            else push_char c (splitlines (d ∷ s)))
          ++ ks
    either_way = ground (arith, push_char-append c (splitlines (d ∷ s)) ks (splitlines_filled d s))

-- The lines of a text that a line feed and another text follow.
pub splitlines-append :
    (s t : Text) → is_open s ≡ true → splitlines (s ++ 10 ∷ t) ≡ splitlines s ++ splitlines t
splitlines-append [] t h = cc
splitlines-append (c ∷ []) t h =
    splitlines-feed (c ∷ []) t (ground (arith, h))
    ∙ ap (λ ls. ls ++ splitlines t) (sym (splitlines_last c (ground (arith, h))))
splitlines-append (c ∷ d ∷ s) t h =
    splitlines_step c d s (s ++ 10 ∷ t) (splitlines t) (splitlines-append (d ∷ s) t h)

-- A cell without the separator, and the separator behind it, are one cell before the others.
pub split-cell :
    (sep : ℕ) (cell s : Text)
    → all (λ c. not (c == sep)) cell ≡ true
    → split sep (cell ++ sep ∷ s) ≡ cell ∷ split sep s
unfolding split
split-cell sep [] s h = ground arith
split-cell sep (c ∷ cell) s h = ground (arith, split-cell sep cell s)
