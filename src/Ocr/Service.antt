-- ===== src/Ocr/Service.antt =====
-- backend/ocr/parser_client.py and backend/parser/app.py: a document parsed in this process, or by
-- the isolated parser service.
pub mod Remote
use orca_validator.Prelude.{
  ℕ, Bool, List, [], ◌∷◌, ◌++◌, Option, none, some, if◌then◌else◌, Text, lit, is_empty, Failure,
  message, Result, ok, err,
}
use orca_validator.Ocr.Result.{OcrResult, Page, failure, is_ok}
use orca_validator.Ocr.Formats.{Libraries, Files}
use orca_validator.Ocr.Reader.{with_bytes, read_document}

-- The JSON that the service answers with.
pub record Reply : Type 0 where
  pub was_ok : Bool
  pub raw_text : Text
  pub pages : List Page
  pub error : Option Text

-- `mkstemp(suffix)` and the write to it: the path of the new file, and the files with it.
abbrev pub WriteTemp : Type 0
WriteTemp = Text → List ℕ → Result (Text × Files)

abbrev pub reply_of : OcrResult → Reply
reply_of r = record { was_ok = is_ok r; raw_text = r.raw_text; pages = r.pages; error = r.error }

-- `os.path.splitext(…)[1].lower() or ".bin"`
abbrev pub or_bin : Text → Text
or_bin suffix = if is_empty suffix then lit ".bin" else suffix

-- The default of `read_document`'s parameter `dpi`.
abbrev pub default_dpi : ℕ
default_dpi = 200

abbrev pub read_temp : Libraries → Result (Text × Files) → Result Reply
read_temp lib (err e) = err e
read_temp lib (ok (path, files)) = ok (reply_of (read_document lib files path default_dpi))

-- `parse`, the endpoint of the service
unfoldable pub parse : Libraries → WriteTemp → Text → List ℕ → Result Reply
parse lib write_temp filename bytes =
    read_temp lib (write_temp (or_bin (lib.suffix filename)) bytes)

-- The client's settings, `os.path.basename`, and the post, which raises where the connection, the
-- status or the JSON does.
pub record Client : Type 0 where
  pub parser_url : Text
  pub basename : Text → Text
  pub post : Text → Text → List ℕ → Result Reply

abbrev pub result_of_reply : Reply → OcrResult
result_of_reply r = record {
  raw_text = r.raw_text;
  pages = r.pages;
  fields = [];
  confidence = 0;
  error = r.error;
}

abbrev pub result_or_failure : Result Reply → OcrResult
result_or_failure (ok r) = result_of_reply r
result_or_failure (err e) = failure [] (lit "parser service error: " ++ message e)

-- `parse_document`
unfoldable pub parse_document : Libraries → Client → Files → Text → ℕ → OcrResult
parse_document lib client files blob_path dpi =
    if is_empty client.parser_url
    then read_document lib files blob_path dpi
    else result_or_failure (
        with_bytes (files blob_path)
          (client.post (client.parser_url ++ lit "/parse") (client.basename blob_path)))
