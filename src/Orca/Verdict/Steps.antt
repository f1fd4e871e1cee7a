-- ===== src/Orca/Verdict/Steps.antt =====
-- The two steps of the machine after an extraction.
use orca_validator.Prelude.{
  ℕ, zero, suc, ◌≡◌, refl, sym, ◌∙◌, true, List, [], ◌∷◌, Option, some, map, Text, lit, get, put,
  get-put, ok, inl, inr,
}
use orca_validator.Ocr.Extract.{Extraction}
use orca_validator.Orca.Context.{Context, str, list}
use orca_validator.Orca.Actions.{reasons_for, record_valid, record_invalid}
use orca_validator.Orca.Machine.{
  State, received, validating, valid, invalid, Machine, extracted, evaluate, Row, unguarded,
  nothing_missing, something_missing, run_action, Guard, Action, always, extracted_action,
  valid_action, invalid_action, all_required_present, missing_required,
}
use orca_validator.Orca.Runtime.{Runtime}
use orca_validator.Orca.Verdict.{payload_of, Extracted, record_extracted-Extracted, Judged}

failed : Context → Context
failed c = put (lit "verdict") (str (lit "fail")) c

-- The failing action gives a reason for each field that the context lists.
record_invalid_lem :
    (c : Context) (ms : List (Option Text))
    → get (lit "missing_fields") c ≡ some (list ms)
    → record_invalid c (some []) ≡ ok (put (lit "reasons") (list (reasons_for ms)) (failed c))
unfolding record_invalid failed
record_invalid_lem c [] h =
    rw (get-put (lit "verdict") (lit "missing_fields") (str (lit "fail")) c ∙ h, record_invalid)
      (unfold get in refl)
record_invalid_lem c (m ∷ ms) h =
    rw (get-put (lit "verdict") (lit "missing_fields") (str (lit "fail")) c ∙ h, record_invalid)

abbrev extracted_row : Row
extracted_row = record {
  source = received;
  event = extracted;
  guard = always;
  target = validating;
  action = extracted_action;
}

abbrev evaluate_row : Guard → State → Action → Row
evaluate_row g t a = record {
  source = validating;
  event = evaluate;
  guard = g;
  target = t;
  action = a;
}

module _ (rt : Runtime) where
  -- EXTRACTED takes a new machine to `validating` with the facts in its context.
  pub extracted_step :
      (ext : Extraction) (m : Machine)
      → m.state ≡ received
      → (c : Context) × (rt.send m extracted (payload_of ext)
          ≡ ok (record { state = validating; context = c }, true))
        × Extracted ext.missing_count ext.missing_fields c
  unfolding run_action
  extracted_step ext m at =
      let (c, acts, facts) = record_extracted-Extracted ext m.context in
      (
        c,
        rt.send_fires m extracted (payload_of ext) extracted_row c
            (record { listed = inl refl; from = sym at; on = refl; guarded = unguarded }) acts,
        facts,
      )

  -- EVALUATE takes it on to the verdict that the count of missing fields asks for.
  pub evaluate_step :
      (n : ℕ) (fields : List Text) (c : Context)
      → Extracted n fields c
      → (m : Machine) × (rt.send (record { state = validating; context = c }) evaluate []
          ≡ ok (m, true))
        × Judged n fields m
  unfolding run_action record_valid
  evaluate_step zero fields c facts =
      let row = evaluate_row all_required_present valid valid_action in
      (
        record { state = valid; context = _ },
        rt.send_fires (record { state = validating; context = c }) evaluate [] row _
            (record {
              listed = inr (inr (inr (inr (inr (inl refl)))));
              from = refl;
              on = refl;
              guarded = nothing_missing facts.count;
            })
            refl,
        record { state = refl; verdict = simp get-put; reasons = simp get-put },
      )
  evaluate_step (suc n) fields c facts =
      let row = evaluate_row missing_required invalid invalid_action in
      (
        record { state = invalid; context = _ },
        rt.send_fires (record { state = validating; context = c }) evaluate [] row _
            (record {
              listed = inr (inr (inr (inr (inr (inr (inl refl))))));
              from = refl;
              on = refl;
              guarded = something_missing n facts.count;
            })
            (record_invalid_lem c (map some fields) facts.missing),
        record { state = refl; verdict = unfold failed in simp get-put; reasons = simp get-put },
      )
