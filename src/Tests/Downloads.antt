-- ===== src/Tests/Downloads.antt =====
-- The theorems of the downloads and of the machines' endpoints.
use orca_validator.Prelude.{
  ℕ, ◌≡◌, refl, true, [], ◌∷◌, none, some, List, Text, Dict, lit, ltb, all, ok, splitlines,
}
use orca_validator.Export.Redline.{clean_revision, drop_deleted, keep_inserted, strip_stray}
use orca_validator.Export.Docx.{Block, heading}
use orca_validator.Export.Docx.Rendered.{AreShown}
use orca_validator.Pipeline.Database.{no_analysis, analysis_done, find}
use orca_validator.Api.Http.{reply}
use orca_validator.Api.Documents.{Service}
use orca_validator.Api.Documents.Retrieval.{download_revised_md, latest_run, revised_or_404}
use orca_validator.Api.Documents.Word.{
  docx_title, download_revised_docx, download_revised_docx-AreShown,
}
use orca_validator.Api.Machines.{Compiler, stem}
use orca_validator.Api.Machines.Listed.{is_machine_file}
use orca_validator.Tests.Instances.{document, run}

-- A run with a revision.
abbrev revised : Service ℕ ℕ Text
revised = record {
  documents = document ∷ [];
  runs = run ∷ [];
  results =
      record {
        run_id = lit "r1";
        verdict = lit "pass";
        final_state = lit "valid";
        reasons = [];
        extracted_fields = [];
        document_type = lit "contract";
        analysis = no_analysis;
        revised_markdown = some (lit "# Lease {++**new**++}");
        analysis_status = analysis_done;
        document_fsm = none;
      }
      ∷ [];
  blobs = [];
  verified_machines = [];
  queue = [];
  background = [];
}

revised_md : download_revised_md ltb (lit "d1") revised revised ≡ reply (lit "# Lease **new**")
unfolding download_revised_md latest_run find clean_revision revised_or_404 strip_stray
    keep_inserted drop_deleted
revised_md = refl

download_revised_docx-AreShown_example :
    (blocks : List Block) × (download_revised_docx ltb (lit "d1") revised revised
      ≡ reply (heading 0 docx_title ∷ blocks))
    × AreShown (splitlines (lit "# Lease **new**")) blocks
download_revised_docx-AreShown_example =
    download_revised_docx-AreShown ltb (lit "d1") revised revised (lit "# Lease **new**") revised_md

abbrev machines : Dict Text
machines = (lit "b.orca.md", lit "2") ∷ (lit "a.orca.md", lit "1") ∷ []

abbrev compiler : Compiler
compiler = record { exists = λ id. true; compile = λ id. ok (true, lit "stateDiagram-v2") }

machine_files : all is_machine_file machines ≡ true
unfolding stem
machine_files = refl
