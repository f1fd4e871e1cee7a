-- ===== src/Ocr/Extract/Signatures.antt =====
-- Which texts count as signed.
use orca_validator.Prelude.{◌≡◌, ap, Bool, ◌||◌, some, Text, lit, get, contains}
use orca_validator.Ocr.Regex.Search.{search-either, search-literal}
use orca_validator.Ocr.Result.{OcrResult}
use orca_validator.Ocr.Extract.{Python, extract, found, signatures_pattern}

-- The text holds one of the four phrases.
abbrev pub mentions_signature : Text → Bool
mentions_signature t =
    contains (lit "signature") t
    || (contains (lit "signed by") t
        || (contains (lit "in witness whereof") t || contains (lit "/s/") t))

found-signatures_pattern :
    (py : Python) (result : OcrResult)
    → found py signatures_pattern result ≡ mentions_signature (py.lower result.raw_text)
found-signatures_pattern py result = simp (search-either, search-literal)

-- The deterministic extractor reports signatures exactly where the text, in lower case, contains
-- "signature", "signed by", "in witness whereof" or "/s/".
pub get-extract_signatures :
    (py : Python) (result : OcrResult)
    → get (lit "signatures") (extract py result).fields
      ≡ some (mentions_signature (py.lower result.raw_text))
unfolding get extract
get-extract_signatures py result = ap some (found-signatures_pattern py result)
