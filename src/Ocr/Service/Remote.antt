-- ===== src/Ocr/Service/Remote.antt =====
-- The service reads what this process would read.
use orca_validator.Prelude.{
  ℕ, ◌≡◌, ◌≢◌, refl, ◌∙◌, false, List, [], ◌++◌, arith, Text, lit, is_empty, ok,
}
use orca_validator.Ocr.Result.{OcrResult}
use orca_validator.Ocr.Formats.{Libraries, Files}
use orca_validator.Ocr.Reader.{read_document}
use orca_validator.Ocr.Reader.Readable.{CountsPages, IsReading, read_document-IsReading}
use orca_validator.Ocr.Service.{
  WriteTemp, Client, reply_of, default_dpi, parse, result_of_reply, parse_document,
}

result_of_reply-reply_of : (r : OcrResult) → IsReading r → result_of_reply (reply_of r) ≡ r
result_of_reply-reply_of r reading = ground (arith, reading.unstructured, reading.unrated)

is_empty_of : (t : Text) → t ≢ [] → is_empty t ≡ false
is_empty_of t h = ground (arith, h)

module _ (lib : Libraries) where
  -- Reading depends on the suffix of the path and on the bytes.
  read_document_same :
      (files files' : Files) (path path' : Text) (bytes : List ℕ) (dpi : ℕ)
      → lib.suffix path' ≡ lib.suffix path
      → files path ≡ ok bytes
      → files' path' ≡ ok bytes
      → read_document lib files' path' dpi ≡ read_document lib files path dpi
  unfolding read_document
  read_document_same files files' path path' bytes dpi suffix here there =
      rw (suffix, here, there) refl

  -- Where the service is configured and answers, a document that can be opened and has a suffix is
  -- read as this process would read it at the resolution 200, whatever resolution was asked for.
  -- Hypotheses: the post delivers the file and the answer, the temporary file has the suffix that
  -- was asked for and holds what was written, the base name of a path has the path's suffix, and an
  -- opened document has as many pages as it tells.
  pub parse_document-remote :
      (client : Client) (write_temp : WriteTemp) (files temps : Files) (path temp : Text)
      (bytes : List ℕ) (dpi : ℕ)
      → CountsPages lib
      → client.parser_url ≢ []
      → files path ≡ ok bytes
      → client.post (client.parser_url ++ lit "/parse") (client.basename path) bytes
        ≡ parse lib write_temp (client.basename path) bytes
      → lib.suffix (client.basename path) ≡ lib.suffix path
      → lib.suffix path ≢ []
      → write_temp (lib.suffix path) bytes ≡ ok (temp, temps)
      → temps temp ≡ ok bytes
      → lib.suffix temp ≡ lib.suffix path
      → parse_document lib client files path dpi ≡ read_document lib files path default_dpi
  unfolding parse_document parse
  parse_document-remote client write_temp files temps path temp bytes dpi counts url opens delivers
        base suffixed writes holds keeps =
      let remote = is_empty_of client.parser_url url in
      let named = is_empty_of (lib.suffix path) suffixed in
      let read = read_document lib temps temp default_dpi in
      let answered : parse lib write_temp (client.basename path) bytes ≡ ok (reply_of read) =
        rw base (rw named (rw writes refl)) in
      rw remote (rw opens (rw (delivers ∙ answered) refl))
      ∙ result_of_reply-reply_of read (read_document-IsReading lib counts temps temp default_dpi)
      ∙ read_document_same files temps path temp bytes default_dpi keeps opens holds
