-- ===== src/Ocr/Formats.antt =====
-- What backend/ocr/reader.py reads with: the format libraries, and the files.
use orca_validator.Prelude.{ℕ, Bool, List, Option, Text, Result}

-- A document as PyMuPDF opens it: the number of pages that it tells, and the pages.
pub record Pdf (PageImage : Type 0) : Type 0 where
  pub page_count : ℕ
  pub pages : List PageImage

-- A document as python-docx opens it: the texts of its paragraphs, and of the cells of the rows of
-- its tables.
pub record Docx : Type 0 where
  pub paragraphs : List Text
  pub tables : List (List (List Text))

-- The format libraries and the comparisons of page sizes. Opening depends on the suffix of the file
-- and on its bytes, and may raise.
pub record Libraries : Type 1 where
  pub PageImage : Type 0
  -- `os.path.splitext(path)[1].lower()`
  pub suffix : Text → Text
  -- `str(n)`
  pub decimal : ℕ → Text
  -- the message of the ImportError, if the package is not there
  pub docx_missing : Option Text
  pub fitz_missing : Option Text
  pub has_tesseract : Bool
  -- the bytes as UTF-8, errors replaced, as a file opened for text reads them
  pub decode : List ℕ → Text
  pub open_docx : List ℕ → Result Docx
  pub open_fitz : Text → List ℕ → Result (Pdf PageImage)
  -- `page.get_text() or ""`
  pub get_text : PageImage → Result Text
  -- `est_px > MAX_RENDER_PIXELS and est_px > 0`, at a resolution
  pub too_large : PageImage → ℕ → Bool
  -- `int(dpi * (MAX_RENDER_PIXELS / est_px) ** 0.5)`
  pub scaled : PageImage → ℕ → ℕ
  -- the page rendered at a resolution and recognised
  pub image_to_string : PageImage → ℕ → Result Text

-- The files: what a path holds, or the failure to open it.
abbrev pub Files : Type 0
Files = Text → Result (List ℕ)
