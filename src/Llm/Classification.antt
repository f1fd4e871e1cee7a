-- ===== src/Llm/Classification.antt =====
-- backend/llm/together.py, classify_and_check_fields: the kind of a document and the fields that the
-- model asks of that kind.
pub mod Names
use orca_validator.Prelude.{
  ℕ, Bool, true, not, List, [], ◌∷◌, ◌++◌, Option, none, some, if◌then◌else◌, Text, lit, Dict, put,
  strip, take, length, is_empty, Failure, Result, ok, err, Exec, continue, ◌>>=◌, lift,
}
use orca_validator.Ocr.Extract.{Extraction, absent}
use orca_validator.Llm.Prompts.{classification_sys}
use orca_validator.Llm.Chat.{Request, Together, ChatSettings, chat}

-- An entry of `required_fields`: `str(f.get("name", ""))` and `bool(f.get("present"))`.
pub record FieldAnswer : Type 0 where
  pub name : Text
  pub present : Bool

-- `str(data.get("document_type"))`, where that is truthy, and the entries.
pub record Answer : Type 0 where
  pub document_type : Option Text
  pub required_fields : List FieldAnswer

-- What a content is: no JSON, JSON that is not of this form, on which the code raises, or an answer.
pub data Parsed : Type 0 where
  not_json : Parsed
  malformed : Failure → Parsed
  answered : Answer → Parsed

-- `str(f.get("name", "")).strip()[:64]`
abbrev pub field_name : FieldAnswer → Text
field_name f = take 64 (strip f.name)

-- The loop over the entries; an entry without a name is passed over, and of two with one name the
-- later one counts.
unfoldable pub collect_fields : List FieldAnswer → Dict Bool → Dict Bool
collect_fields [] fields = fields
collect_fields (f ∷ rest) fields =
    collect_fields rest
      (if is_empty (field_name f) then fields else put (field_name f) f.present fields)

-- The answer to a content that is no JSON.
abbrev pub no_requirements : Extraction
no_requirements = record {
  document_type = some (lit "document");
  fields = [];
  missing_fields = [];
  missing_count = 0;
  presence = none;
}

abbrev pub or_document : Option Text → Text
or_document none = lit "document"
or_document (some t) = t

abbrev pub extraction_of : Answer → Dict Bool → Extraction
extraction_of a fields = record {
  document_type = some (take 128 (or_document a.document_type));
  fields = fields;
  missing_fields = absent fields;
  missing_count = length (absent fields);
  presence = none;
}

unfoldable pub read_content : Parsed → Result Extraction
unfolding collect_fields
read_content not_json = ok no_requirements
read_content (malformed e) = err e
read_content (answered a) = ok (extraction_of a (collect_fields a.required_fields []))

abbrev pub classify_request : (ai : Together) → Text → ai.F → Request ai.F
classify_request ai text temperature = record {
  system = classification_sys;
  user = lit "Document text:\n\n" ++ take 60000 text;
  max_tokens = 900;
  temperature = temperature;
  response_json = true;
}

-- `json.loads`, and what the code reads of its result, is Python's.
module _ (ai : Together) (settings : ChatSettings) (parse : Text → Parsed) where
  unfoldable pub classify_and_check_fields : Text → ai.F → Exec ai.redis.Outside Extraction
  unfolding read_content
  classify_and_check_fields text temperature = do
    content ← chat ai settings (classify_request ai text temperature)
    lift (read_content (parse content))
