-- ===== src/Orca/Compile/Verified.antt =====
-- What a report on an extracted machine means.
use orca_validator.Prelude.{
  ◌≡◌, refl, ap, true, false, some, Text, is_empty, Result, ok, err, ◌⊎◌, inl, inr, Bool-cases,
}
use orca_validator.Pipeline.Database.{FsmReport}
use orca_validator.Orca.Fsm.{parse_machine}
use orca_validator.Orca.Hoisting.{normalize_for_verification}
use orca_validator.Orca.Diagram.{build_mermaid}
use orca_validator.Orca.Diagram.Drawn.{build_mermaid-drawn}
use orca_validator.Orca.Compile.{
  CliRun, Cli, no_machine, is_no_machine, drawn_or_none, report_of, attempt, verify_and_compile,
}

-- What the report draws: nothing where no state was read.
drawn_states :
    (orca_md : Text)
    → (is_empty (parse_machine orca_md).0 ≡ true)
      ⊎ ((diagram : Text) × (drawn_or_none (build_mermaid orca_md) ≡ some diagram))
drawn_states orca_md = elim (build_mermaid-drawn orca_md) [
  | inl (e, d) ↦ inl e
  | inr (e, (t, d)) ↦ inr (t, ap drawn_or_none d)
]

module _ (cli : Cli) where
  -- The verifier's process was given the rewritten copy of the machine, and accepted it.
  pub record Accepted (orca_md : Text) (path : Text) (o : cli.Outside) (report : FsmReport)
      : Type 0 where
    pub run : CliRun
    pub after : cli.Outside
    pub verifies : cli.verify path (normalize_for_verification orca_md) o ≡ (ok run, after)
    pub accepts : run.exited_zero ≡ true
    pub drawn :
        (is_empty (parse_machine orca_md).0 ≡ true)
        ⊎ ((diagram : Text) × (report.mermaid ≡ some diagram))

  -- The report of one outcome of the process.
  reported :
      (orca_md path : Text) (o : cli.Outside) (x : Result CliRun × cli.Outside)
      → cli.verify path (normalize_for_verification orca_md) o ≡ x
      → ((report_of orca_md x.0).verified ≡ false) ⊎ Accepted orca_md path o (report_of orca_md x.0)
  unfolding report_of
  reported orca_md path o (err e, o') h = inl refl
  reported orca_md path o (ok run, o') h = elim (Bool-cases run.exited_zero) [
    | inl e ↦
        inr (record {
          run = run;
          after = o';
          verifies = h;
          accepts = e;
          drawn = drawn_states orca_md;
        })
    | inr e ↦ inl e
  ]

  skipped :
      (orca_md : Text) (o : cli.Outside)
      → is_no_machine orca_md ≡ true
      → (verify_and_compile cli orca_md o).0 ≡ ok (no_machine orca_md)
  unfolding verify_and_compile
  skipped orca_md o e = rw e refl

  attempted :
      (orca_md path : Text) (o o' : cli.Outside)
      → cli.mkstemp o ≡ (ok path, o')
      → is_no_machine orca_md ≡ false
      → (verify_and_compile cli orca_md o).0
        ≡ ok (report_of orca_md (cli.verify path (normalize_for_verification orca_md) o').0)
  unfolding verify_and_compile attempt
  attempted orca_md path o o' created e = rw e (rw created refl)

  -- Where a temporary file can be made, verify_and_compile returns a report, and one that says
  -- "verified" was earned: the verifier's process was given the copy with the hoisted transitions
  -- and exited with 0, and the report has a diagram unless no state was read from the text.
  pub verify_and_compile-Accepted :
      (orca_md path : Text) (o o' : cli.Outside)
      → cli.mkstemp o ≡ (ok path, o')
      → (report : FsmReport) × ((verify_and_compile cli orca_md o).0 ≡ ok report)
        × ((report.verified ≡ false) ⊎ Accepted orca_md path o' report)
  verify_and_compile-Accepted orca_md path o o' created =
      elim (Bool-cases (is_no_machine orca_md)) [
        | inl e ↦ (no_machine orca_md, skipped orca_md o e, inl refl)
        | inr e ↦
            let x = cli.verify path (normalize_for_verification orca_md) o' in
            (
              report_of orca_md x.0,
              attempted orca_md path o o' created e,
              reported orca_md path o' x refl,
            )
      ]
