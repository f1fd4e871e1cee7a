-- ===== src/Orca/Hoisting/Leaving.antt =====
-- Which of the hoisted transitions still leave a composite state from within.
use orca_validator.Prelude.{
  ◌≡◌, ◌≢◌, refl, Bool, true, false, not, ◌&&◌, List, [], Option, none, some, inl, inr, arith, Text,
  text_eq, is_empty, Bool-cases, Option-cases,
}
use orca_validator.Orca.Fsm.{FsmState, Edge}
use orca_validator.Orca.Hoisting.{parent_of, is_outside, hoist}

-- The target is neither the composite nor one of its states.
abbrev pub leaves : List FsmState → Text → Text → Bool
leaves states target ps = is_outside (parent_of states target) ps && not (text_eq target ps)

abbrev pub is_leaving_from : List FsmState → Edge → Option Text → Bool
is_leaving_from states t none = false
is_leaving_from states t (some ps) = not (is_empty ps) && leaves states t.target ps

-- The transition goes from a state of a composite to a state that is neither of it nor it.
abbrev pub is_leaving : List FsmState → Edge → Bool
is_leaving states t = is_leaving_from states t (parent_of states t.source)

-- Where the composite that holds the source of a transition is in no other, the hoisted transition
-- does not go from a state of a composite to a state that is neither in it nor it.
pub hoist_stays :
    (states : List FsmState) (t : Edge)
    → ((p : Text) → parent_of states t.source ≡ some p → parent_of states p ≡ none)
    → is_leaving states (hoist states t) ≡ false
unfolding hoist
hoist_stays states t flat = elim (Option-cases (parent_of states t.source)) [
  | inl e ↦ rw e (rw e refl)
  | inr (p, e) ↦ elim (Bool-cases (not (is_empty p) && leaves states t.target p)) [
    | inl out ↦ rw e (rw out (rw (flat p e) refl))
    | inr stays ↦ rw e (rw stays (rw e stays))
  ]
]

-- A transition from a state of a composite that is itself in another, to a state that is neither of
-- the two nor in them, is hoisted to one that still goes from a state of the outer composite to a
-- state outside it.
pub hoist-leaves :
    (states : List FsmState) (t : Edge) (inner outer : Text)
    → parent_of states t.source ≡ some inner
    → parent_of states inner ≡ some outer
    → inner ≢ []
    → outer ≢ []
    → leaves states t.target inner ≡ true
    → leaves states t.target outer ≡ true
    → is_leaving states (hoist states t) ≡ true
unfolding hoist
hoist-leaves states t inner outer child nested some_inner some_outer out_inner out_outer =
    let named : is_empty inner ≡ false = ground (arith, some_inner) in
    let named' : is_empty outer ≡ false = ground (arith, some_outer) in
    rw child (rw named (rw out_inner (rw nested (rw named' out_outer))))
