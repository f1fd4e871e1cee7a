-- ===== src/Tests/Diagrams.antt =====
-- The theorems of the document's own machine, at a machine with one composite state.
use orca_validator.Prelude.{
  ℕ, List, map, join, some, none, ◌≡◌, refl, true, false, [], ◌∷◌, ◌++◌, any, all, Text, lit, ok,
  splitlines, is_break, strip, is_space, contains, ◌⊎◌,
}
use orca_validator.Pipeline.Database.{FsmReport}
use orca_validator.Orca.Fsm.{FsmState, Edge, parse_machine, state_heading, transition_of}
use orca_validator.Orca.Hoisting.{
  is_child, head_of, normalized_transitions, normalize_for_verification,
}
use orca_validator.Orca.Hoisting.Rows.{is_row}
use orca_validator.Orca.Hoisting.Reread.{edges_in, parse_machine-normalize}
use orca_validator.Orca.Diagram.{
  diagram, boxes, composites, toplevel, label_of, parents_of, sorted, inside, top_lines, box,
}
use orca_validator.Orca.Hoisting.{parent_of}
use orca_validator.Orca.Diagram.Lines.{IsDrawn, diagram-IsDrawn}
use orca_validator.Orca.Hoisting.{hoist, holds}
use orca_validator.Orca.Hoisting.Covered.{is_distinct}
use orca_validator.Orca.Hoisting.Given.{given_edges, normalize_for_verification_lem}
use orca_validator.Orca.Compile.{Cli, verify_and_compile}
use orca_validator.Orca.Compile.Verified.{Accepted, verify_and_compile-Accepted}
use orca_validator.Tests.Machines.{plain_state, shallow}

-- `b` is in `a`, and is left for `d`.
abbrev nested_text : Text
nested_text =
    lit "## state a"
    ++ (10 ∷ lit "### state b"
        ++ (10 ∷ lit "## state d" ++ (10 ∷ lit "## transitions" ++ (10 ∷ lit "| b | E | | d | |"))))

nested_child : any is_child (parse_machine nested_text).0 ≡ true
unfolding parse_machine splitlines is_break is_space
nested_child = refl

nested_rows :
    all is_row (normalized_transitions (parse_machine nested_text).0 (parse_machine nested_text).1)
    ≡ true
unfolding parse_machine normalized_transitions strip splitlines is_break is_space contains
nested_rows = refl

parse_machine-normalize_example :
    (parse_machine (normalize_for_verification nested_text)).1
    ≡ edges_in (splitlines (head_of nested_text))
      ++ normalized_transitions (parse_machine nested_text).0 (parse_machine nested_text).1
parse_machine-normalize_example = parse_machine-normalize nested_text nested_child nested_rows

nested_head : edges_in (splitlines (head_of nested_text)) ≡ []
unfolding edges_in head_of state_heading transition_of strip splitlines is_break is_space contains
nested_head = refl

normalize_for_verification_lem_example :
    (holds shallow (given_edges nested_text)
      ≡ holds shallow (map (hoist (parse_machine nested_text).0) (parse_machine nested_text).1))
    × (is_distinct (given_edges nested_text) ≡ true)
normalize_for_verification_lem_example =
    normalize_for_verification_lem nested_text shallow nested_child nested_head nested_rows

-- `b` and `c` are in `a`.
abbrev boxed_states : List FsmState
boxed_states =
    plain_state (lit "a") none
    ∷ plain_state (lit "b") (some (lit "a"))
    ∷ plain_state (lit "c") (some (lit "a"))
    ∷ plain_state (lit "d") none
    ∷ []

abbrev both_edges : List Edge
both_edges = shallow ∷ record { source = lit "b"; event = lit "F"; target = lit "c" } ∷ []

abbrev drawn_text : Text
drawn_text = join (lit "\n") (
    lit "stateDiagram-v2"
    ∷ lit "  direction LR"
    ∷ []
    ∷ lit "  d : d"
    ∷ lit "  state \"a\" as a {"
    ∷ lit "    b : b"
    ∷ lit "    c : c"
    ∷ lit "    b --> c : F"
    ∷ lit "  }"
    ∷ lit "  b --> d : E"
    ∷ [])

drawn_nested : diagram boxed_states both_edges ≡ some drawn_text
unfolding diagram boxes composites label_of parents_of sorted inside parent_of toplevel top_lines
    box
drawn_nested = refl

diagram-IsDrawn_example : IsDrawn boxed_states both_edges drawn_text
diagram-IsDrawn_example = diagram-IsDrawn boxed_states both_edges drawn_text drawn_nested

-- A verifier that accepts everything.
abbrev cli : Cli
cli = record {
  Outside = ℕ;
  mkstemp = λ o. (ok (lit "/tmp/m"), o);
  verify =
      λ path text o. (ok (record { exited_zero = true; stdout = lit "VERIFIED"; stderr = [] }), o);
  unlink = λ path o. o;
}

verify_and_compile-Accepted_example :
    (report : FsmReport) × ((verify_and_compile cli nested_text 7).0 ≡ ok report)
    × ((report.verified ≡ false) ⊎ Accepted cli nested_text (lit "/tmp/m") 7 report)
verify_and_compile-Accepted_example =
    verify_and_compile-Accepted cli nested_text (lit "/tmp/m") 7 7 refl
