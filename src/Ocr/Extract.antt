-- ===== src/Ocr/Extract.antt =====
-- backend/ocr/extract.py: a text read into typed fields.
pub mod Core
pub mod Signatures
use orca_validator.Prelude.{
  ℕ, String, Bool, true, false, not, ◌||◌, List, [], ◌∷◌, ◌++◌, Option, none, some, map,
  if◌then◌else◌, Text, lit, Dict, get, has_key, put, length, any, contains, text_eq, Result, ok,
  err, Failure, raised, is_empty,
}
use orca_validator.Ocr.Result.{OcrResult}
use orca_validator.Ocr.Regex.{Regex, literal, either, sequence, boundary, word_chars, search}

-- What Python's Unicode tables and `repr` decide.
pub record Python : Type 0 where
  pub lower : Text → Text
  pub is_word : ℕ → Bool
  pub repr : Text → Text

-- The flags that only the deterministic extractor adds.
pub record Presence : Type 0 where
  pub has_parties : ℕ
  pub has_effective_date : ℕ
  pub has_term : ℕ
  pub has_signatures : ℕ
  pub has_governing_law : ℕ

-- The dictionary that an extractor or the classifier returns; the optional keys are options.
pub record Extraction : Type 0 where
  pub document_type : Option Text
  pub fields : Dict Bool
  pub missing_fields : List Text
  pub missing_count : ℕ
  pub presence : Option Presence

-- `CONTRACT_REQUIRED`
abbrev pub contract_required : List Text
contract_required =
    lit "parties" ∷ lit "effective_date" ∷ lit "term" ∷ lit "signatures" ∷ lit "governing_law" ∷ []

abbrev word : String → Regex
word s = literal (lit s)

-- `_PATTERNS`
abbrev pub parties_pattern : Regex
parties_pattern = sequence boundary (
    sequence
      (either (word "between")
        (either (word "by and between") (sequence (word "part") (either (word "y") (word "ies")))))
      boundary)

abbrev pub effective_date_pattern : Regex
effective_date_pattern = sequence boundary (
    sequence
      (either (word "effective date")
        (either (word "effective as of") (either (word "dated as of") (word "dated"))))
      boundary)

abbrev pub term_pattern : Regex
term_pattern = sequence boundary (
    sequence
      (either (word "term") (either (word "duration") (either (word "expir") (word "terminat"))))
      (sequence word_chars boundary))

abbrev pub signatures_pattern : Regex
signatures_pattern =
    either (word "signature")
      (either (word "signed by") (either (word "in witness whereof") (word "/s/")))

abbrev pub governing_law_pattern : Regex
governing_law_pattern = sequence boundary (
    sequence
      (either (word "governing law")
        (either (word "governed by") (either (word "jurisdiction") (word "laws of"))))
      boundary)

-- `int(b)`
abbrev pub bit : Bool → ℕ
bit true = 1
bit false = 0

-- `[name for name, present in fields.items() if not present]`
unfoldable pub absent : Dict Bool → List Text
absent [] = []
absent ((name, present) ∷ d) = if present then absent d else name ∷ absent d

-- The loop over the required fields, `core` being their deterministic presence.
unfoldable pub fill_missing : Dict Bool → List Text → Dict Bool → Dict Bool
fill_missing core [] merged = merged
fill_missing core (field ∷ rest) merged = fill_missing core rest (
    if has_key field merged
    then merged
    else put field (elim (get field core) [ none ↦ false | some b ↦ b ]) merged)

-- `_CONTRACT_LIKE`
abbrev pub contract_like : List Text
contract_like =
    lit "agreement"
    ∷ lit "contract"
    ∷ lit "lease"
    ∷ lit "license"
    ∷ lit "nda"
    ∷ lit "non-disclosure"
    ∷ lit "terms of service"
    ∷ lit "terms and conditions"
    ∷ lit "memorandum of understanding"
    ∷ lit "mou"
    ∷ lit "addendum"
    ∷ []

module _ (py : Python) where
  abbrev pub found : Regex → OcrResult → Bool
  found r result = search py.is_word r (py.lower result.raw_text)

  -- `DeterministicContractExtractor.extract`
  unfoldable pub extract : OcrResult → Extraction
  unfolding search absent
  extract result =
      let parties = found parties_pattern result in
      let effective_date = found effective_date_pattern result in
      let term = found term_pattern result in
      let signatures = found signatures_pattern result in
      let governing_law = found governing_law_pattern result in
      let fields : Dict Bool =
        (lit "parties", parties)
        ∷ (lit "effective_date", effective_date)
        ∷ (lit "term", term)
        ∷ (lit "signatures", signatures)
        ∷ (lit "governing_law", governing_law)
        ∷ [] in
      record {
        document_type = none;
        fields = fields;
        missing_fields = absent fields;
        missing_count = length (absent fields);
        presence = some (record {
          has_parties = bit parties;
          has_effective_date = bit effective_date;
          has_term = bit term;
          has_signatures = bit signatures;
          has_governing_law = bit governing_law;
        });
      }

  unfoldable pub is_contract_like : Text → Bool
  unfolding contains
  is_contract_like document_type = any (λ k. contains k (py.lower document_type)) contract_like

  unfoldable pub merge_core_contract_fields : Dict Bool → OcrResult → Dict Bool
  unfolding extract fill_missing
  merge_core_contract_fields llm_fields result =
      fill_missing (extract result).fields contract_required llm_fields

  -- `get_extractor(doc_type, kind).extract(result)`, with the two `ValueError`s
  unfoldable pub extract_as : Text → Text → OcrResult → Result Extraction
  unfolding extract
  extract_as doc_type kind result =
      if text_eq (lit "contract") doc_type
      then if text_eq (lit "deterministic") kind
        then ok (extract result)
        else err (
            raised (
              lit "unknown extractor "
              ++ (py.repr kind
                  ++ (lit " for "
                      ++ (py.repr doc_type ++ lit " (llm adapter is a later milestone)")))))
      else err (raised (lit "no extractor registered for doc_type " ++ py.repr doc_type))
