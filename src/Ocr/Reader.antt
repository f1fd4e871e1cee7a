-- ===== src/Ocr/Reader.antt =====
-- backend/ocr/reader.py: a file read into text, by its format.
pub mod Readable
use orca_validator.Prelude.{
  ℕ, suc, ◌+◌, Bool, true, false, not, ◌&&◌, ◌||◌, List, [], ◌∷◌, ◌++◌, Option, none, some, map,
  ltb, ◌==◌, if◌then◌else◌, Text, lit, join, strip, length, any, is_empty, text_eq, Failure,
  message, Result, ok, err,
}
use orca_validator.Ocr.Formats.{Pdf, Docx, Libraries, Files}
use orca_validator.Ocr.Result.{
  OcrResult, Page, Method, embedded, tesseract, docx, plain_text, success, failure,
}

abbrev pub min_embedded_chars : ℕ
min_embedded_chars = 20

abbrev pub max_pages : ℕ
max_pages = 100

-- `_FITZ_EXTS` and `_TEXT_EXTS`
abbrev pub fitz_exts : List Text
fitz_exts =
    lit "pdf"
    ∷ lit "png"
    ∷ lit "jpg"
    ∷ lit "jpeg"
    ∷ lit "tif"
    ∷ lit "tiff"
    ∷ lit "bmp"
    ∷ lit "gif"
    ∷ lit "webp"
    ∷ lit "epub"
    ∷ lit "xps"
    ∷ lit "fb2"
    ∷ lit "cbz"
    ∷ lit "svg"
    ∷ []

abbrev pub text_exts : List Text
text_exts =
    lit "txt" ∷ lit "md" ∷ lit "markdown" ∷ lit "text" ∷ lit "csv" ∷ lit "log" ∷ lit "rtf" ∷ []

-- `s.lstrip(".")`
unfoldable pub lstrip_dots : Text → Text
lstrip_dots [] = []
lstrip_dots (c ∷ s) = if c == b'.' then lstrip_dots s else c ∷ s

abbrev pub one_page : Text → Method → List Page
one_page raw method = record { page = 0; method = method; chars = length raw } ∷ []

-- `OCRResult(raw_text=raw, pages=[…])`, or the error where nothing is left
abbrev pub single : Method → Text → Text → OcrResult
single method error raw =
    if is_empty raw then failure [] error else success raw (one_page raw method)

-- A file is opened where it is read, and opening may raise.
abbrev pub with_bytes {ℓ} : {A : Type ℓ} → Result (List ℕ) → (List ℕ → Result A) → Result A
with_bytes (err e) f = err e
with_bytes (ok bytes) f = f bytes

-- `_read_text`, on the outcome of opening the file
unfoldable pub read_text : Libraries → Result (List ℕ) → Result OcrResult
read_text lib file =
    with_bytes file
      (λ bytes. ok (single plain_text (lit "empty text document") (strip (lib.decode bytes))))

-- The texts that `_read_docx` joins.
abbrev pub row_texts : List (List Text) → List Text
row_texts rows = map (λ cells. join (lit "\t") cells) rows

abbrev pub table_texts : List (List (List Text)) → List Text
table_texts [] = []
table_texts (rows ∷ tables) = row_texts rows ++ table_texts tables

abbrev pub docx_text : Docx → Text
docx_text d = strip (join (lit "\n") (d.paragraphs ++ table_texts d.tables))

abbrev pub docx_result : Result Docx → Result OcrResult
docx_result (err e) = err e
docx_result (ok d) = ok (single docx (lit "no text extracted from .docx") (docx_text d))

-- `_read_docx`
unfoldable pub read_docx : Libraries → Result (List ℕ) → Result OcrResult
read_docx lib file = elim lib.docx_missing [
  | some e ↦ ok (failure [] (lit "python-docx not available: " ++ e))
  | none ↦ docx_result (with_bytes file lib.open_docx)
]

module _ (lib : Libraries) where
  -- The resolution that a page is rendered at: never more pixels than MAX_RENDER_PIXELS, if that
  -- takes a resolution of 36 or more.
  unfoldable pub render_dpi : lib.PageImage → ℕ → ℕ
  render_dpi page dpi =
      let s = lib.scaled page dpi in
      if lib.too_large page dpi then (if ltb 36 s then s else 36) else dpi

  abbrev pub recognised : Result Text → Option Text
  recognised (ok t) = some t
  recognised (err e) = none

  -- `_ocr_page_image`
  unfoldable pub ocr_page_image : lib.PageImage → ℕ → Option Text
  unfolding render_dpi
  ocr_page_image page dpi =
      if lib.has_tesseract
      then recognised (lib.image_to_string page (render_dpi page dpi))
      else none

  -- The text of a page and how it was obtained: recognised where there is little embedded text.
  abbrev pub or_embedded : Text → Option Text → Text × Method
  or_embedded text none = (text, embedded)
  or_embedded text (some recognised_text) = (recognised_text, tesseract)

  unfoldable pub page_text : lib.PageImage → ℕ → Text → Text × Method
  unfolding ocr_page_image
  page_text page dpi text =
      if ltb (length (strip text)) min_embedded_chars
      then or_embedded text (ocr_page_image page dpi)
      else (text, embedded)

  abbrev pub page_entry : ℕ → Text × Method → Page
  page_entry i t = record { page = i; method = t.1; chars = length t.0 }

  -- One more page before the others.
  abbrev pub cons_page :
      ℕ → Text × Method → Result (List Page × List Text) → Result (List Page × List Text)
  cons_page i t (err e) = err e
  cons_page i t (ok (pages, texts)) = ok (page_entry i t ∷ pages, t.0 ∷ texts)

  abbrev pub read_next :
      ℕ
      → ℕ
      → lib.PageImage
      → Result Text
      → Result (List Page × List Text)
      → Result (List Page × List Text)
  read_next i dpi page (err e) rest = err e
  read_next i dpi page (ok text) rest = cons_page i (page_text page dpi text) rest

  -- The loop over the pages, from the page with a number on; a raise leaves it.
  unfoldable pub read_pages : ℕ → ℕ → List lib.PageImage → Result (List Page × List Text)
  unfolding page_text
  read_pages i dpi [] = ok ([], [])
  read_pages i dpi (page ∷ pages) =
      read_next i dpi page (lib.get_text page) (read_pages (suc i) dpi pages)

  -- What follows the loop.
  abbrev pub joined : List Page → Text → OcrResult
  joined pages raw =
      if is_empty raw
      then failure pages (lit "no text could be extracted (embedded or OCR)")
      else success raw pages

  abbrev pub fitz_result : Result (List Page × List Text) → Result OcrResult
  fitz_result (err e) = err e
  fitz_result (ok (pages, texts)) = ok (joined pages (strip (join (lit "\n\n") texts)))

  abbrev pub page_limit : ℕ → Text
  page_limit n =
      lit "document exceeds the "
      ++ (lib.decimal max_pages ++ (lit "-page limit (" ++ (lib.decimal n ++ lit " pages)")))

  abbrev pub read_opened : ℕ → Result (Pdf lib.PageImage) → Result OcrResult
  read_opened dpi (err e) = err e
  read_opened dpi (ok doc) =
      if ltb max_pages doc.page_count
      then ok (failure [] (page_limit doc.page_count))
      else fitz_result (read_pages 0 dpi doc.pages)

  -- `_read_fitz`
  unfoldable pub read_fitz : Text → Result (List ℕ) → ℕ → Result OcrResult
  unfolding read_pages
  read_fitz suffix file dpi = elim lib.fitz_missing [
    | some e ↦ ok (failure [] (lit "PyMuPDF (fitz) not available: " ++ e))
    | none ↦ read_opened dpi (with_bytes file (lib.open_fitz suffix))
  ]

  -- `ext or 'unknown'`
  abbrev pub or_unknown : Text → Text
  or_unknown ext = if is_empty ext then lit "unknown" else ext

  -- The dispatch on the extension.
  unfoldable pub dispatch : Text → Text → Result (List ℕ) → ℕ → Result OcrResult
  unfolding read_docx read_text read_fitz
  dispatch suffix ext file dpi =
      if text_eq ext (lit "docx")
      then read_docx lib file
      else if any (λ e. text_eq e ext) text_exts
      then read_text lib file
      else if any (λ e. text_eq e ext) fitz_exts || is_empty ext
      then read_fitz suffix file dpi
      else ok (failure [] (lit "unsupported document type: ." ++ ext))

  -- `except Exception`
  abbrev pub unreadable : Text → Failure → OcrResult
  unreadable ext e =
      failure [] (lit "could not read document (." ++ (or_unknown ext ++ (lit "): " ++ message e)))

  abbrev pub or_unreadable : Text → Result OcrResult → OcrResult
  or_unreadable ext (ok r) = r
  or_unreadable ext (err e) = unreadable ext e

  -- `read_document`
  unfoldable pub read_document : Files → Text → ℕ → OcrResult
  unfolding dispatch lstrip_dots
  read_document files path dpi =
      let suffix = lib.suffix path in
      let ext = lstrip_dots suffix in or_unreadable ext (dispatch suffix ext (files path) dpi)
