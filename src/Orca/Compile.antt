-- ===== src/Orca/Compile.antt =====
-- backend/orca/document_fsm.py, verify_and_compile: an extracted machine is verified and drawn.
pub mod Verified
use orca_validator.Prelude.{
  Bool, true, false, not, ◌||◌, ◌++◌, Option, none, some, Text, lit, is_empty, contains, strip,
  if◌then◌else◌, Failure, message, Result, ok, err, Exec, pure, ◌>>=◌,
}
use orca_validator.Pipeline.Database.{FsmReport}
use orca_validator.Orca.Hoisting.{normalize_for_verification}
use orca_validator.Orca.Diagram.{build_mermaid}

-- What `subprocess.run` returns; `exited_zero` is `returncode == 0`.
pub record CliRun : Type 0 where
  pub exited_zero : Bool
  pub stdout : Text
  pub stderr : Text

-- The temporary file and the verifier's process. `verify path text` writes the text to the file and
-- runs the process on it; it raises where the write or the process does, or on a timeout.
pub record Cli : Type 1 where
  pub Outside : Type 0
  pub mkstemp : Exec Outside Text
  pub verify : Text → Text → Exec Outside CliRun
  pub unlink : Text → Outside → Outside

abbrev pub no_machine : Text → FsmReport
no_machine orca_md = record {
  orca_md = some orca_md;
  mermaid = none;
  verified = false;
  report = lit "no state machine could be extracted from the document";
}

-- `except Exception: mermaid = None`
abbrev pub drawn_or_none : Option (Option Text) → Option Text
drawn_or_none none = none
drawn_or_none (some mermaid) = mermaid

-- What is returned after the attempt to verify.
unfoldable pub report_of : Text → Result CliRun → FsmReport
unfolding build_mermaid
report_of orca_md (ok run) = record {
  orca_md = some orca_md;
  mermaid = drawn_or_none (build_mermaid orca_md);
  verified = run.exited_zero;
  report = strip (run.stdout ++ run.stderr);
}
report_of orca_md (err e) = record {
  orca_md = some orca_md;
  mermaid = none;
  verified = false;
  report = lit "error: " ++ message e;
}

-- `not orca_md or "## state" not in orca_md`
abbrev pub is_no_machine : Text → Bool
is_no_machine orca_md = is_empty orca_md || not (contains (lit "## state") orca_md)

module _ (cli : Cli) where
  -- The `try` block, and the file removed behind it.
  unfoldable pub attempt : Text → Text → Exec cli.Outside FsmReport
  unfolding normalize_for_verification report_of
  attempt orca_md path o =
      let (r, o') = cli.verify path (normalize_for_verification orca_md) o in
      (ok (report_of orca_md r), cli.unlink path o')

  -- `verify_and_compile`
  unfoldable pub verify_and_compile : Text → Exec cli.Outside FsmReport
  unfolding attempt
  verify_and_compile orca_md =
      if is_no_machine orca_md
      then pure (no_machine orca_md)
      else (do path ← cli.mkstemp; attempt orca_md path)
