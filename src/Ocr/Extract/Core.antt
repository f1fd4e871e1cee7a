-- ===== src/Ocr/Extract/Core.antt =====
-- Which fields a contract is held to.
use orca_validator.Prelude.{
  ℕ, ◌+◌, ◌≡◌, refl, ◌∙◌, ◌↔◌, Bool, true, false, List, [], ◌∷◌, Option, none, some, inl, inr,
  arith, Text, lit, text_eq, text_eq_iff, Dict, get, has_key, put, get-put, length, any, all,
  Bool-cases, if◌then◌else◌,
}
use orca_validator.Ocr.Result.{OcrResult}
use orca_validator.Ocr.Extract.{
  Python, Presence, contract_required, bit, absent, extract, fill_missing,
  merge_core_contract_fields, found, parties_pattern, effective_date_pattern, term_pattern,
  signatures_pattern, governing_law_pattern,
}

-- `f in fields`
abbrev pub among : Text → List Text → Bool
among j fields = any (λ f. text_eq f j) fields

abbrev pub or_false : Option Bool → Bool
or_false none = false
or_false (some b) = b

-- What a field is after the merge: the old value where there is one, else the core value of a
-- required field.
abbrev pub merged_value : Option Bool → Bool → Option Bool → Option Bool
merged_value (some b) required core = some b
merged_value none required core = if required then some (or_false core) else none

has_key-get :
    (k : Text) (d : Dict Bool) → has_key k d ≡ (elim (get k d) [ none ↦ false | some b ↦ true ])
unfolding has_key get
has_key-get k [] = refl
has_key-get k ((j, b) ∷ d) = ground (arith, has_key-get k d)

abbrev fill_one : Text → Dict Bool → Dict Bool → Dict Bool
fill_one f core m =
    if has_key f m then m else put f (elim (get f core) [ none ↦ false | some b ↦ b ]) m

get-fill_one :
    (f j : Text) (core m : Dict Bool)
    → get j (fill_one f core m) ≡ merged_value (get j m) (text_eq f j) (get j core)
get-fill_one f j core m = elim (Bool-cases (has_key f m)) [
  | inl old ↦ rw old (ground (arith, has_key-get f m, text_eq_iff f j))
  | inr new ↦
      rw new
        (ground (arith, has_key-get f m, text_eq_iff f j, get-put f j (or_false (get f core)) m))
]

get-fill_missing :
    (core : Dict Bool) (fields : List Text) (m : Dict Bool) (j : Text)
    → get j (fill_missing core fields m) ≡ merged_value (get j m) (among j fields) (get j core)
unfolding fill_missing
get-fill_missing core [] m j = ground arith
get-fill_missing core (f ∷ fs) m j =
    get-fill_missing core fs (fill_one f core m) j ∙ rw get-fill_one (ground arith)

-- After the merge every field has the value that the model gave it, if it gave one, else, for a
-- required field, the value that the deterministic extractor found, and other fields are absent.
pub get-merge_core_contract_fields :
    (py : Python) (llm_fields : Dict Bool) (result : OcrResult) (j : Text)
    → get j (merge_core_contract_fields py llm_fields result)
      ≡ merged_value
          (get j llm_fields)
          (among j contract_required)
          (get j (extract py result).fields)
unfolding merge_core_contract_fields
get-merge_core_contract_fields py llm_fields result j =
    get-fill_missing (extract py result).fields contract_required llm_fields j

abbrev pub flags : Option Presence → ℕ
flags none = 0
flags (some p) =
    p.has_parties + p.has_effective_date + p.has_term + p.has_signatures + p.has_governing_law

present_or_absent :
    (k l m n o : Text) (a b c d e : Bool)
    → length (absent ((k, a) ∷ (l, b) ∷ (m, c) ∷ (n, d) ∷ (o, e) ∷ []))
        + (bit a + bit b + bit c + bit d + bit e)
      ≡ 5
unfolding absent
present_or_absent k l m n o a b c d e = ground arith

-- The deterministic extractor counts each of the five fields either as present or as missing: its
-- flags and its count of missing fields add up to five.
pub extract_counts :
    (py : Python) (result : OcrResult)
    → (extract py result).missing_count + flags (extract py result).presence ≡ 5
unfolding extract
extract_counts py result =
    present_or_absent (lit "parties") (lit "effective_date") (lit "term") (lit "signatures")
      (lit "governing_law") (found py parties_pattern result)
      (found py effective_date_pattern result) (found py term_pattern result)
      (found py signatures_pattern result) (found py governing_law_pattern result)

-- Nothing is absent exactly when every field is present.
pub length-absent-eq-zero : (d : Dict Bool) → (length (absent d) ≡ 0) ↔ (all (λ f. f.1) d ≡ true)
unfolding absent
length-absent-eq-zero [] = ground arith
length-absent-eq-zero ((k, b) ∷ d) = ground (arith, length-absent-eq-zero d)
