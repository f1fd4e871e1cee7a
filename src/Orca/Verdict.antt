-- ===== src/Orca/Verdict.antt =====
-- The extraction as the machine gets it, and the verdict that it leads to.
pub mod Steps
use orca_validator.Prelude.{
  ℕ, zero, suc, ◌≡◌, refl, sym, ap, ◌∙◌, Bool, true, false, List, [], ◌∷◌, ◌++◌, Option, none, some,
  map, arith, Text, lit, Dict, get, put, get-put, Result, ok, inl, inr, is_empty, text_eq,
  text_eq_iff, Option-cases, if◌then◌else◌,
}
use orca_validator.Ocr.Extract.{Extraction, Presence}
use orca_validator.Orca.Context.{Context, Value, null, num, str, list, flags, elements}
use orca_validator.Orca.Actions.{
  reasons_for, record_extracted, record_valid, record_invalid, value_or, copy_key, copy_keys,
  copied_keys,
}
use orca_validator.Orca.Machine.{
  State, received, validating, valid, invalid, Machine, Event, extracted, evaluate, Row,
  contract_validation, Fires, Holds, unguarded, nothing_missing, something_missing, run_action,
  always, extracted_action, valid_action, invalid_action, all_required_present, missing_required,
}
use orca_validator.Orca.Runtime.{Runtime}

abbrev pub type_entry : Option Text → Context
type_entry none = []
type_entry (some t) = (lit "document_type", str t) ∷ []

abbrev pub presence_entries : Option Presence → Context
presence_entries none = []
presence_entries (some p) =
    (lit "has_parties", num p.has_parties)
    ∷ (lit "has_effective_date", num p.has_effective_date)
    ∷ (lit "has_term", num p.has_term)
    ∷ (lit "has_signatures", num p.has_signatures)
    ∷ (lit "has_governing_law", num p.has_governing_law)
    ∷ []

-- The extraction as the payload of EXTRACTED.
abbrev pub payload_of : Extraction → Context
payload_of ext =
    type_entry ext.document_type
    ++ ((lit "fields", flags ext.fields)
        ∷ (lit "missing_fields", list (map some ext.missing_fields))
        ∷ (lit "missing_count", num ext.missing_count)
        ∷ presence_entries ext.presence)

-- What the guards and the failing action read of a context.
pub record Extracted (n : ℕ) (fields : List Text) (c : Context) : Type 0 where
  pub count : get (lit "missing_count") c ≡ some (num n)
  pub missing : get (lit "missing_fields") c ≡ some (list (map some fields))

get-copy_key :
    (k j : Text) (p c : Context)
    → get j (copy_key k p c)
      ≡ (if text_eq k j then (elim (get j p) [ none ↦ get j c | some v ↦ some v ]) else get j c)
get-copy_key k j p c = elim (Option-cases (get k p)) [
  | inl e ↦ ground (arith, text_eq_iff k j)
  | inr (v, e) ↦ ground (arith, text_eq_iff k j, get-put k j v c)
]

get-missing_count-payload_of :
    (ext : Extraction) → get (lit "missing_count") (payload_of ext) ≡ some (num ext.missing_count)
unfolding get
get-missing_count-payload_of ext = elim (Option-cases ext.document_type) [
  | inl e ↦ rw (e, type_entry) refl
  | inr (t, e) ↦ rw (e, type_entry) refl
]

get-missing_fields-payload_of :
    (ext : Extraction)
    → get (lit "missing_fields") (payload_of ext) ≡ some (list (map some ext.missing_fields))
unfolding get
get-missing_fields-payload_of ext = elim (Option-cases ext.document_type) [
  | inl e ↦ rw (e, type_entry) refl
  | inr (t, e) ↦ rw (e, type_entry) refl
]

count_copied :
    (ext : Extraction) (context : Context)
    → get (lit "missing_count") (copy_keys copied_keys (payload_of ext) context)
      ≡ some (num ext.missing_count)
count_copied ext context = simp (get-copy_key, get-missing_count-payload_of)

-- EXTRACTED puts the count and the list of the missing fields into the context.
pub record_extracted-Extracted :
    (ext : Extraction) (context : Context)
    → (c : Context) × (record_extracted context (some (payload_of ext)) ≡ ok c)
      × Extracted ext.missing_count ext.missing_fields c
unfolding record_extracted
record_extracted-Extracted ext context =
    let copied = copy_keys copied_keys (payload_of ext) context in
    (
      put (lit "missing_fields") (list (map some ext.missing_fields)) copied,
      ap (λ v. ok (put (lit "missing_fields") (value_or v (list [])) copied))
          (get-missing_fields-payload_of ext),
      record { count = rw get-put (count_copied ext context); missing = rw get-put refl },
    )

-- The state and the reasons that a count and a list of missing fields lead to.
abbrev pub final_state : ℕ → State
final_state zero = valid
final_state (suc n) = invalid

abbrev pub verdict_text : ℕ → Text
verdict_text zero = lit "pass"
verdict_text (suc n) = lit "fail"

abbrev pub verdict_reasons : ℕ → List Text → List (Option Text)
verdict_reasons zero missing = []
verdict_reasons (suc n) missing = reasons_for (map some missing)

-- A machine that has reached the verdict of an extraction.
pub record Judged (n : ℕ) (fields : List Text) (m : Machine) : Type 0 where
  pub state : m.state ≡ final_state n
  pub verdict : get (lit "verdict") m.context ≡ some (str (verdict_text n))
  pub reasons : get (lit "reasons") m.context ≡ some (list (verdict_reasons n fields))
