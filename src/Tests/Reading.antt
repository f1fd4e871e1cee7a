-- ===== src/Tests/Reading.antt =====
-- The theorems of the reader and of the parser service, with libraries that open a file as one page
-- that shows its bytes.
use mathlib.Core.Path.{subst}
use orca_validator.Prelude.{
  ◌≡◌, ◌≢◌, refl, true, false, [], ◌∷◌, none, Text, lit, length, arith, Result, ok, err,
}
use orca_validator.Ocr.Formats.{Pdf, Libraries, Files}
use orca_validator.Ocr.Reader.{read_document}
use orca_validator.Ocr.Reader.Readable.{IsReading, CountsPages, read_document-IsReading}
use orca_validator.Ocr.Service.{WriteTemp, Client, default_dpi, parse, parse_document}
use orca_validator.Ocr.Service.Remote.{parse_document-remote}

abbrev pub libraries : Libraries
libraries = record {
  PageImage = Text;
  suffix = λ path. lit ".pdf";
  decimal = λ n. [];
  docx_missing = none;
  fitz_missing = none;
  has_tesseract = true;
  decode = λ bytes. bytes;
  open_docx = λ bytes. ok (record { paragraphs = bytes ∷ []; tables = [] });
  open_fitz = λ suffix bytes. ok (record { page_count = 1; pages = bytes ∷ [] });
  get_text = λ page. ok page;
  too_large = λ page dpi. false;
  scaled = λ page dpi. dpi;
  image_to_string = λ page dpi. ok page;
}

-- Every path holds its own name.
abbrev files : Files
files = λ path. ok path

abbrev Counted : Result (Pdf Text) → Type 0
Counted (ok doc) = doc.page_count ≡ length doc.pages
Counted (err e) = Unit

libraries-CountsPages : CountsPages libraries
libraries-CountsPages = λ suffix bytes doc h. subst Counted h refl

read_document-IsReading_example : IsReading (read_document libraries files (lit "lease") 300)
read_document-IsReading_example =
    read_document-IsReading libraries libraries-CountsPages files (lit "lease") 300

abbrev temps : Files
temps = λ path. ok (lit "lease")

abbrev write_temp : WriteTemp
write_temp = λ suffix bytes. ok (lit "/tmp/x.pdf", λ path. ok bytes)

abbrev client : Client
client = record {
  parser_url = lit "http://parser";
  basename = λ path. path;
  post = λ url name bytes. parse libraries write_temp name bytes;
}

has_url : client.parser_url ≢ []
has_url = λ e. ground (arith, e)

has_suffix : libraries.suffix (lit "lease") ≢ []
has_suffix = λ e. ground (arith, e)

parse_document-remote_example :
    parse_document libraries client files (lit "lease") 300
    ≡ read_document libraries files (lit "lease") default_dpi
parse_document-remote_example =
    parse_document-remote libraries client write_temp files temps (lit "lease") (lit "/tmp/x.pdf")
      (lit "lease") 300 libraries-CountsPages has_url refl refl refl has_suffix refl refl refl
