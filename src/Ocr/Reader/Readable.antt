-- ===== src/Ocr/Reader/Readable.antt =====
-- What a document is read into: a text with its provenance, or an error.
use orca_validator.Prelude.{
  ℕ, suc, ◌≤◌, ◌≡◌, refl, ap, ◌∙◌, Bool, true, false, not, ◌&&◌, List, [], ◌∷◌, Option, none, some,
  inl, inr, arith, Text, lit, length, strip, join, is_empty, is_empty-strip-strip, Result, ok, err,
  Bool-cases, Option-cases, if◌then◌else◌, ◌==◌, ltb, ltb→le, ◌++◌, ◌||◌, any, text_eq,
}
use orca_validator.Ocr.Result.{OcrResult, Page, Method, docx, plain_text, failure, is_ok}
use orca_validator.Ocr.Formats.{Libraries, Files, Pdf, Docx}
use orca_validator.Ocr.Reader.{
  max_pages, text_exts, fitz_exts, lstrip_dots, with_bytes, table_texts, page_limit, cons_page,
  single, read_text, read_docx, docx_result, page_text, read_next, read_pages, joined, fitz_result,
  read_opened, read_fitz, dispatch, or_unreadable, read_document,
}

abbrev pub is_none : Option Text → Bool
is_none none = true
is_none (some e) = false

-- The pages are numbered from a number on.
abbrev pub is_numbered : ℕ → List Page → Bool
is_numbered i [] = true
is_numbered i (p ∷ pages) = (p.page == i) && is_numbered (suc i) pages

-- A result has a text that is not blank or an error, never both, and its pages are numbered from 0 on and at most a hundred.
pub record IsReading (r : OcrResult) : Type 0 where
  pub decided : is_ok r ≡ is_none r.error
  pub exclusive : is_empty r.raw_text ≡ not (is_none r.error)
  pub blank_with_error : is_empty (strip r.raw_text) ≡ not (is_none r.error)
  pub numbered : is_numbered 0 r.pages ≡ true
  pub few : length r.pages ≤ max_pages
  pub unstructured : r.fields ≡ []
  pub unrated : r.confidence ≡ 0

-- A result in the place of which an exception may come.
abbrev AreReadings : Result OcrResult → Type 0
AreReadings (ok r) = IsReading r
AreReadings (err e) = Unit

either_of {ℓ κ} :
    {A : Type ℓ} (P : A → Type κ) (b : Bool) {x y : A} → P x → P y → P (if b then x else y)
either_of P true px py = px
either_of P false px py = py

failure-IsReading : (e : Text) → IsReading (failure [] e)
unfolding is_ok strip
failure-IsReading e = record {
  decided = refl;
  exclusive = refl;
  blank_with_error = refl;
  numbered = refl;
  few = omega arith;
  unstructured = refl;
  unrated = refl;
}

single-IsReading : (m : Method) (e t : Text) → IsReading (single m e (strip t))
unfolding is_ok
single-IsReading m e t = elim (Bool-cases (is_empty (strip t))) [
  | inl none_left ↦ rw none_left (failure-IsReading e)
  | inr left ↦ rw left (record {
    decided = ap not (is_empty-strip-strip t ∙ left);
    exclusive = left;
    blank_with_error = is_empty-strip-strip t ∙ left;
    numbered = refl;
    few = omega arith;
    unstructured = refl;
    unrated = refl;
  })
]

module _ (lib : Libraries) where
  joined-IsReading :
      (pages : List Page) (t : Text)
      → is_numbered 0 pages ≡ true
      → length pages ≤ max_pages
      → IsReading (joined lib pages (strip t))
  unfolding is_ok strip
  joined-IsReading pages t numbered few = elim (Bool-cases (is_empty (strip t))) [
    | inl none_left ↦ rw none_left (record {
      decided = refl;
      exclusive = refl;
      blank_with_error = refl;
      numbered = numbered;
      few = few;
      unstructured = refl;
      unrated = refl;
    })
    | inr left ↦ rw left (record {
      decided = ap not (is_empty-strip-strip t ∙ left);
      exclusive = left;
      blank_with_error = is_empty-strip-strip t ∙ left;
      numbered = numbered;
      few = few;
      unstructured = refl;
      unrated = refl;
    })
  ]

  -- The loop numbers the pages in order, and makes one entry for each.
  abbrev Numbers : ℕ → ℕ → Result (List Page × List Text) → Type 0
  Numbers i n (err e) = Unit
  Numbers i n (ok (pages, texts)) = (is_numbered i pages ≡ true) × (length pages ≡ n)

  Numbers-cons_page :
      (i n : ℕ) (t : Text × Method) (rest : Result (List Page × List Text))
      → Numbers (suc i) n rest
      → Numbers i (suc n) (cons_page lib i t rest)
  Numbers-cons_page i n t (err e) h = tt
  Numbers-cons_page i n t (ok (pages, texts)) h = ground (arith, h)

  Numbers-read_next :
      (i n dpi : ℕ) (image : lib.PageImage) (text : Result Text)
      (rest : Result (List Page × List Text))
      → Numbers (suc i) n rest
      → Numbers i (suc n) (read_next lib i dpi image text rest)
  Numbers-read_next i n dpi image (err e) rest h = tt
  Numbers-read_next i n dpi image (ok text) rest h =
      Numbers-cons_page i n (page_text lib image dpi text) rest h

  Numbers-read_pages :
      (i dpi : ℕ) (images : List lib.PageImage)
      → Numbers i (length images) (read_pages lib i dpi images)
  unfolding read_pages
  Numbers-read_pages i dpi [] = (refl, refl)
  Numbers-read_pages i dpi (image ∷ images) =
      Numbers-read_next i (length images) dpi image (lib.get_text image)
        (read_pages lib (suc i) dpi images) (Numbers-read_pages (suc i) dpi images)

  fitz_result-AreReadings :
      (n : ℕ) (r : Result (List Page × List Text))
      → n ≤ max_pages
      → Numbers 0 n r
      → AreReadings (fitz_result lib r)
  fitz_result-AreReadings n (err e) few h = tt
  fitz_result-AreReadings n (ok (pages, texts)) few h =
      joined-IsReading pages (join (lit "\n\n") texts) h.0 (omega (arith, h.1))

  -- The number of pages that an opened document tells is the number of pages that it has.
  abbrev pub CountsPages : Type 0
  CountsPages =
      (suffix : Text) (bytes : List ℕ) (doc : Pdf lib.PageImage)
      → lib.open_fitz suffix bytes ≡ ok doc
      → doc.page_count ≡ length doc.pages

  read_opened-AreReadings :
      (dpi : ℕ) (r : Result (Pdf lib.PageImage))
      → ((doc : Pdf lib.PageImage) → r ≡ ok doc → doc.page_count ≡ length doc.pages)
      → AreReadings (read_opened lib dpi r)
  read_opened-AreReadings dpi (err e) counts = tt
  read_opened-AreReadings dpi (ok doc) counts = elim (Bool-cases (ltb max_pages doc.page_count)) [
    | inl many ↦ rw many (failure-IsReading (page_limit lib doc.page_count))
    | inr few ↦ rw few (
        fitz_result-AreReadings (length doc.pages) (read_pages lib 0 dpi doc.pages)
          (omega (arith, counts doc refl, ltb→le max_pages doc.page_count few))
          (Numbers-read_pages 0 dpi doc.pages))
  ]

  docx_result-AreReadings : (r : Result Docx) → AreReadings (docx_result r)
  docx_result-AreReadings (err e) = tt
  docx_result-AreReadings (ok d) =
      single-IsReading docx (lit "no text extracted from .docx")
        (join (lit "\n") (d.paragraphs ++ table_texts d.tables))

  read_text-AreReadings : (file : Result (List ℕ)) → AreReadings (read_text lib file)
  unfolding read_text
  read_text-AreReadings (err e) = tt
  read_text-AreReadings (ok bytes) =
      single-IsReading plain_text (lit "empty text document") (lib.decode bytes)

  read_docx-AreReadings : (file : Result (List ℕ)) → AreReadings (read_docx lib file)
  unfolding read_docx
  read_docx-AreReadings file = elim (Option-cases lib.docx_missing) [
    | inl here ↦ rw here (docx_result-AreReadings (with_bytes file lib.open_docx))
    | inr (e, missing) ↦ rw missing (failure-IsReading (lit "python-docx not available: " ++ e))
  ]

  read_fitz-AreReadings :
      CountsPages
      → (suffix : Text) (file : Result (List ℕ)) (dpi : ℕ)
      → AreReadings (read_fitz lib suffix file dpi)
  unfolding read_fitz
  read_fitz-AreReadings counts suffix file dpi = elim (Option-cases lib.fitz_missing) [
    | inl here ↦ rw here (opened file)
    | inr (e, missing) ↦ rw missing (failure-IsReading (lit "PyMuPDF (fitz) not available: " ++ e))
  ]
    where
      opened :
          (f : Result (List ℕ))
          → AreReadings (read_opened lib dpi (with_bytes f (lib.open_fitz suffix)))
      opened (err e) = tt
      opened (ok bytes) =
          read_opened-AreReadings dpi (lib.open_fitz suffix bytes) (counts suffix bytes)

  or_unreadable-IsReading :
      (ext : Text) (r : Result OcrResult) → AreReadings r → IsReading (or_unreadable lib ext r)
  or_unreadable-IsReading ext (ok r) h = h
  or_unreadable-IsReading ext (err e) h = failure-IsReading _

  dispatch-AreReadings :
      CountsPages
      → (suffix ext : Text) (file : Result (List ℕ)) (dpi : ℕ)
      → AreReadings (dispatch lib suffix ext file dpi)
  unfolding dispatch
  dispatch-AreReadings counts suffix ext file dpi =
      either_of AreReadings (text_eq ext (lit "docx")) (read_docx-AreReadings file) (
        either_of AreReadings (any (λ e. text_eq e ext) text_exts) (read_text-AreReadings file) (
          either_of AreReadings (any (λ e. text_eq e ext) fitz_exts || is_empty ext)
            (read_fitz-AreReadings counts suffix file dpi)
            (failure-IsReading (lit "unsupported document type: ." ++ ext))))

  -- Where an opened document has as many pages as it tells: whatever the file, reading it gives
  -- either a text that is not blank or an error, never both or neither, and its page entries are
  -- numbered from 0 on and at most a hundred.
  pub read_document-IsReading :
      CountsPages
      → (files : Files) (path : Text) (dpi : ℕ) → IsReading (read_document lib files path dpi)
  unfolding read_document
  read_document-IsReading counts files path dpi =
      or_unreadable-IsReading (lstrip_dots (lib.suffix path)) _ (
        dispatch-AreReadings counts (lib.suffix path) (lstrip_dots (lib.suffix path)) (files path)
          dpi)
