-- ===== src/Orca/Hoisting/Given.antt =====
-- The transitions of the copy that the verifier is given (backend/orca/document_fsm.py,
-- _normalize_for_verification).
use orca_validator.Prelude.{◌≡◌, ap, ◌∙◌, true, List, [], ◌++◌, all, any, map, Text, splitlines}
use orca_validator.Orca.Fsm.{Edge, parse_machine}
use orca_validator.Orca.Hoisting.{
  is_child, hoist, holds, normalized_transitions, head_of, normalize_for_verification,
}
use orca_validator.Orca.Hoisting.Covered.{is_distinct, normalized_transitions_lem}
use orca_validator.Orca.Hoisting.Rows.{is_row}
use orca_validator.Orca.Hoisting.Reread.{edges_in, parse_machine-normalize}

-- What the verifier reads from its copy.
abbrev pub given_edges : Text → List Edge
unfolding parse_machine normalize_for_verification
given_edges orca_md = (parse_machine (normalize_for_verification orca_md)).1

-- Where a machine has composite states, has no row of a transition before its table, and its hoisted
-- transitions can be written as rows: the copy that the verifier is given, read again, has a
-- transition exactly where that is what hoisting makes of a transition of the machine, and has none
-- twice.
pub normalize_for_verification_lem :
    (orca_md : Text) (t : Edge)
    → any is_child (parse_machine orca_md).0 ≡ true
    → edges_in (splitlines (head_of orca_md)) ≡ []
    → all is_row (normalized_transitions (parse_machine orca_md).0 (parse_machine orca_md).1) ≡ true
    → (holds t (given_edges orca_md)
        ≡ holds t (map (hoist (parse_machine orca_md).0) (parse_machine orca_md).1))
      × (is_distinct (given_edges orca_md) ≡ true)
unfolding given_edges
normalize_for_verification_lem orca_md t nested bare rows =
    let (states, transitions) = parse_machine orca_md in
    let given =
      parse_machine-normalize orca_md nested rows
      ∙ ap (λ es. es ++ normalized_transitions states transitions) bare in
    let (same, once) = normalized_transitions_lem states transitions t in
    (ap (holds t) given ∙ same, ap is_distinct given ∙ once)
