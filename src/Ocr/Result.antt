-- ===== src/Ocr/Result.antt =====
-- backend/ocr/result.py: the text read from a document, where it came from, or why there is none.
use orca_validator.Prelude.{
  ℕ, Bool, false, not, List, [], Option, none, some, Text, Dict, is_empty, strip,
}

-- How the text of a page was obtained.
pub data Method : Type 0 where
  embedded tesseract docx plain_text : Method

-- The provenance of a page: `{page, method, chars}`.
pub record Page : Type 0 where
  pub page : ℕ
  pub method : Method
  pub chars : ℕ

pub record OcrResult : Type 0 where
  pub raw_text : Text
  pub pages : List Page
  pub fields : Dict Bool
  pub confidence : ℕ
  pub error : Option Text

abbrev pub success : Text → List Page → OcrResult
success raw_text pages = record {
  raw_text = raw_text;
  pages = pages;
  fields = [];
  confidence = 0;
  error = none;
}

abbrev pub failure : List Page → Text → OcrResult
failure pages error = record {
  raw_text = [];
  pages = pages;
  fields = [];
  confidence = 0;
  error = some error;
}

-- The property `ok`.
unfoldable pub is_ok : OcrResult → Bool
is_ok r = elim r.error [ none ↦ not (is_empty (strip r.raw_text)) | some e ↦ false ]
