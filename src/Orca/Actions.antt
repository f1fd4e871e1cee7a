-- ===== src/Orca/Actions.antt =====
-- backend/orca/actions/contract_actions.py: the actions that the machine calls.
use orca_validator.Prelude.{
  List, [], ◌∷◌, ◌++◌, Option, none, some, map, Text, lit, get, put, Result, ok, err,
}
use orca_validator.Orca.Context.{
  Context, Value, null, num, str, list, flags, or_else, elements, show,
}

-- The keys that `record_extracted` copies.
abbrev pub copied_keys : List Text
copied_keys =
    lit "missing_count"
    ∷ lit "has_parties"
    ∷ lit "has_effective_date"
    ∷ lit "has_term"
    ∷ lit "has_signatures"
    ∷ lit "has_governing_law"
    ∷ []

-- `if key in payload: context[key] = payload[key]`
abbrev pub copy_key : Text → Context → Context → Context
copy_key key payload context = elim (get key payload) [
  | none ↦ context
  | some v ↦ put key v context
]

abbrev pub copy_keys : List Text → Context → Context → Context
copy_keys [] payload context = context
copy_keys (key ∷ keys) payload context = copy_keys keys payload (copy_key key payload context)

-- `payload or {}`
abbrev pub or_empty : Option Context → Context
or_empty none = []
or_empty (some payload) = payload

-- `d.get(key, default)`
abbrev pub value_or : Option Value → Value → Value
value_or none default = default
value_or (some v) default = v

abbrev pub get_or : Text → Context → Value → Value
get_or key d default = value_or (get key d) default

unfoldable pub record_extracted : Context → Option Context → Result Context
record_extracted context payload =
    let given = or_empty payload in
    let copied = copy_keys copied_keys given context in
    ok (put (lit "missing_fields") (get_or (lit "missing_fields") given (list [])) copied)

unfoldable pub record_valid : Context → Option Context → Result Context
record_valid context payload =
    ok (put (lit "reasons") (list []) (put (lit "verdict") (str (lit "pass")) context))

-- The reasons for the missing fields, or the one reason where none is known.
abbrev pub reasons_for : List (Option Text) → List (Option Text)
reasons_for [] = some (lit "required-field check failed") ∷ []
reasons_for (m ∷ ms) = map (λ f. some (lit "missing required field: " ++ show f)) (m ∷ ms)

-- The verdict is written before the reasons are computed; a raise leaves the call.
unfoldable pub record_invalid : Context → Option Context → Result Context
unfolding elements
record_invalid context payload =
    let failed = put (lit "verdict") (str (lit "fail")) context in
    let missing =
      or_else (get (lit "missing_fields") failed)
        (or_else (get (lit "missing_fields") (or_empty payload)) (list [])) in
    elim (elements missing) [
      | ok ms ↦ ok (put (lit "reasons") (list (reasons_for ms)) failed)
      | err e ↦ err e
    ]

-- The reason is the payload's, a text or `None`. The program puts no other value there; here any
-- other is read as `None`.
abbrev pub reason_of : Value → Option Text
reason_of null = none
reason_of (num n) = none
reason_of (str t) = some t
reason_of (list ts) = none
reason_of (flags d) = none

unfoldable pub record_error : Context → Option Context → Result Context
record_error context payload =
    let reason =
      get_or (lit "error") (or_empty payload) (str (lit "extraction or processing failed")) in
    ok (
      put (lit "reasons") (list (reason_of reason ∷ []))
        (put (lit "verdict") (str (lit "error")) context))
