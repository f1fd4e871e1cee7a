-- ===== src/Tests/Machines.antt =====
-- The theorems of the extractor's phrases and of the extracted machines.
use orca_validator.Prelude.{
  ◌≡◌, ◌≢◌, refl, sym, ap, true, false, List, [], ◌∷◌, Option, none, some, arith, Text, lit,
}
use orca_validator.Orca.Fsm.{FsmState, Edge}
use orca_validator.Orca.Hoisting.{parent_of, hoist}
use orca_validator.Orca.Hoisting.Leaving.{leaves, is_leaving, hoist_stays, hoist-leaves}

abbrev pub plain_state : Text → Option Text → FsmState
plain_state id parent = record {
  id = id;
  label = id;
  initial = false;
  final = false;
  parent = parent;
}

-- `c` is in `b`, and `b` is in `a`.
abbrev pub nested_states : List FsmState
nested_states =
    plain_state (lit "a") (none)
    ∷ plain_state (lit "b") (some (lit "a"))
    ∷ plain_state (lit "c") (some (lit "b"))
    ∷ plain_state (lit "d") (none)
    ∷ []

abbrev deep : Edge
deep = record { source = lit "c"; event = lit "E"; target = lit "d" }

abbrev pub shallow : Edge
shallow = record { source = lit "b"; event = lit "E"; target = lit "d" }

nested_parent : parent_of nested_states (lit "c") ≡ some (lit "b")
unfolding parent_of
nested_parent = refl

outer_parent : parent_of nested_states (lit "b") ≡ some (lit "a")
unfolding parent_of
outer_parent = refl

abbrev or_nothing : Option Text → Text
or_nothing none = []
or_nothing (some t) = t

top_parent :
    (p : Text) → parent_of nested_states (lit "b") ≡ some p → parent_of nested_states p ≡ none
unfolding parent_of
top_parent p h = rw (sym (ap or_nothing h)) refl

outside_inner : leaves nested_states (lit "d") (lit "b") ≡ true
unfolding parent_of
outside_inner = refl

outside_outer : leaves nested_states (lit "d") (lit "a") ≡ true
unfolding parent_of
outside_outer = refl

b_named : lit "b" ≢ []
b_named = λ e. ground (arith, e)

a_named : lit "a" ≢ []
a_named = λ e. ground (arith, e)

hoist_stays_example : is_leaving nested_states (hoist nested_states shallow) ≡ false
hoist_stays_example = hoist_stays nested_states shallow top_parent

hoist-leaves_example : is_leaving nested_states (hoist nested_states deep) ≡ true
hoist-leaves_example =
    hoist-leaves nested_states deep (lit "b") (lit "a") nested_parent outer_parent b_named a_named
      outside_inner outside_outer
