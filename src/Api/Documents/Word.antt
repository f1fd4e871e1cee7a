-- ===== src/Api/Documents/Word.antt =====
-- backend/api/documents.py, download_revised_docx: the accepted version as a Word document.
use orca_validator.Prelude.{◌≡◌, ap, ◌∙◌, Bool, arith, List, ◌∷◌, some, Text, lit, splitlines}
use orca_validator.Export.Redline.{clean_revision}
use orca_validator.Export.Docx.{Block, heading, markdown_to_docx}
use orca_validator.Export.Docx.Rendered.{AreShown, markdown_to_docx-AreShown}
use orca_validator.Api.Http.{Response, reply, refused}
use orca_validator.Api.Documents.{Service}
use orca_validator.Api.Documents.Retrieval.{revised_or_404, download_revised_md}

abbrev pub docx_title : Text
docx_title = lit "Revised Contract (AI-assisted)"

abbrev pub as_docx : Response Text → Response (List Block)
unfolding markdown_to_docx clean_revision
as_docx (reply md) = reply (markdown_to_docx (clean_revision (some md)) docx_title)
as_docx (refused code) = refused code

-- What the download as Markdown answers.
abbrev as_markdown : Response Text → Response Text
unfolding clean_revision
as_markdown (reply md) = reply (clean_revision (some md))
as_markdown (refused code) = refused code

as_docx-AreShown :
    (r : Response Text) (md : Text)
    → as_markdown r ≡ reply md
    → (blocks : List Block) × (as_docx r ≡ reply (heading 0 docx_title ∷ blocks))
      × AreShown (splitlines md) blocks
unfolding as_docx as_markdown
as_docx-AreShown (reply redline) md h =
    let (blocks, e, shown) = markdown_to_docx-AreShown md docx_title in
    let same : clean_revision (some redline) ≡ md = ground (arith, h) in
    (blocks, ap (λ t. reply (markdown_to_docx t docx_title)) same ∙ ap reply e, shown)
as_docx-AreShown (refused code) md h = ground (arith, h)

module _ {F Time Analysis : Type 0} (later : Time → Time → Bool) where
  -- `download_revised_docx`, up to the bytes that python-docx saves
  unfoldable pub download_revised_docx :
      Text → Service F Time Analysis → Service F Time Analysis → Response (List Block)
  unfolding as_docx revised_or_404
  download_revised_docx document_id s t = as_docx (revised_or_404 later document_id s t)

  -- Where the Markdown download answers with a text from what its two reads find, the Word download answers from the same with a document whose
  -- blocks, behind the title, show that text line by line: headings at the level of their hashes but
  -- at most 4, bullets, and, for the lines of neither form only, paragraphs, whose runs, with stars put around the bold ones, are the
  -- lines' text, and of which none that is not bold has a part between double stars.
  pub download_revised_docx-AreShown :
      (document_id : Text) (s t : Service F Time Analysis) (md : Text)
      → download_revised_md later document_id s t ≡ reply md
      → (blocks : List Block) × (download_revised_docx document_id s t
          ≡ reply (heading 0 docx_title ∷ blocks))
        × AreShown (splitlines md) blocks
  unfolding download_revised_docx download_revised_md
  download_revised_docx-AreShown document_id s t md h =
      as_docx-AreShown (revised_or_404 later document_id s t) md h
