-- ===== src/Orca/Context.antt =====
-- The machine's context and its events' payloads: Python dictionaries from names to values.
use orca_validator.Prelude.{
  ℕ, Bool, true, false, not, List, [], ◌∷◌, Option, none, some, map, ◌==◌, Text, lit, Dict,
  is_empty, Result, ok, err, raised,
}

-- The values that the program puts into a context: `None`, a number, a text, a list of texts (one
-- of which may be `None`), and a dictionary of flags.
pub data Value : Type 0 where
  null : Value
  num : ℕ → Value
  str : Text → Value
  list : List (Option Text) → Value
  flags : Dict Bool → Value

abbrev pub Context : Type 0
Context = Dict Value

-- `bool(v)`
abbrev pub is_truthy : Value → Bool
is_truthy null = false
is_truthy (num n) = not (n == 0)
is_truthy (str t) = not (is_empty t)
is_truthy (list ts) = not (is_empty ts)
is_truthy (flags d) = not (is_empty d)

-- `v or w`, where a missing key is `None`
abbrev pub or_else : Option Value → Value → Value
or_else none w = w
or_else (some v) w = elim (is_truthy v) [ true ↦ v | false ↦ w ]

-- `[m for m in v]`
unfoldable pub elements : Value → Result (List (Option Text))
elements null = err (raised (lit "'NoneType' object is not iterable"))
elements (num n) = err (raised (lit "'int' object is not iterable"))
elements (str t) = ok (map (λ c. some (c ∷ [])) t)
elements (list ts) = ok ts
elements (flags d) = ok (map (λ e. some e.0) d)

-- `f"{m}"`
abbrev pub show : Option Text → Text
show none = lit "None"
show (some t) = t
