-- ===== src/Orca/Hoisting/Covered.antt =====
-- The list that the loop of _normalize_for_verification collects (backend/orca/document_fsm.py).
use orca_validator.Prelude.{
  ◌≡◌, refl, ◌∙◌, Bool, true, false, not, ◌&&◌, ◌||◌, List, [], ◌∷◌, ◌++◌, map, arith, text_eq_iff,
  if◌then◌else◌,
}
use orca_validator.Orca.Fsm.{FsmState, Edge}
use orca_validator.Orca.Hoisting.{hoist, edge_eq, holds, collect, normalized_transitions}

edge_eq_sym : (a b : Edge) → edge_eq a b ≡ edge_eq b a
unfolding edge_eq
edge_eq_sym a b = ground (
  arith,
  text_eq_iff a.source b.source,
  text_eq_iff b.source a.source,
  text_eq_iff a.event b.event,
  text_eq_iff b.event a.event,
  text_eq_iff a.target b.target,
  text_eq_iff b.target a.target,
)

edge_eq_left : (a b c : Edge) → edge_eq a b ≡ true → edge_eq c a ≡ edge_eq c b
unfolding edge_eq
edge_eq_left a b c h = ground (
  arith,
  h,
  text_eq_iff a.source b.source,
  text_eq_iff a.event b.event,
  text_eq_iff a.target b.target,
)

holds_same : (a b : Edge) (xs : List Edge) → edge_eq a b ≡ true → holds a xs ≡ holds b xs
holds_same a b [] h = refl
holds_same a b (x ∷ xs) h = rw (edge_eq_left a b x h, holds_same a b xs h) refl

holds-append : (t : Edge) (xs ys : List Edge) → holds t (xs ++ ys) ≡ (holds t xs || holds t ys)
holds-append t [] ys = refl
holds-append t (x ∷ xs) ys = ground (arith, holds-append t xs ys)

abbrev add : Edge → List Edge → List Edge
add x norm = if holds x norm then norm else norm ++ x ∷ []

holds-add : (t x : Edge) (norm : List Edge) → holds t (add x norm) ≡ (holds t norm || edge_eq x t)
holds-add t x norm = ground (arith, holds-append t norm (x ∷ []), holds_same x t norm)

holds-collect :
    (t : Edge) (ts norm : List Edge) → holds t (collect ts norm) ≡ (holds t norm || holds t ts)
unfolding collect
holds-collect t [] norm = ground arith
holds-collect t (x ∷ ts) norm = holds-collect t ts (add x norm) ∙ ground (arith, holds-add t x norm)

-- No transition stands in a list twice.
abbrev pub is_distinct : List Edge → Bool
is_distinct [] = true
is_distinct (x ∷ xs) = not (holds x xs) && is_distinct xs

is_distinct-append :
    (xs : List Edge) (t : Edge)
    → is_distinct xs ≡ true
    → holds t xs ≡ false
    → is_distinct (xs ++ t ∷ []) ≡ true
is_distinct-append [] t d h = refl
is_distinct-append (x ∷ xs) t d h =
    ground (arith, d, h, is_distinct-append xs t, holds-append x xs (t ∷ []), edge_eq_sym x t)

is_distinct-collect :
    (ts norm : List Edge) → is_distinct norm ≡ true → is_distinct (collect ts norm) ≡ true
unfolding collect
is_distinct-collect [] norm d = d
is_distinct-collect (x ∷ ts) norm d =
    is_distinct-collect ts (add x norm) (ground (arith, d, is_distinct-append norm x))

-- The list `norm` has a transition exactly where it is what hoisting makes of a transition of the
-- machine, and has none twice.
pub normalized_transitions_lem :
    (states : List FsmState) (transitions : List Edge) (t : Edge)
    → (holds t (normalized_transitions states transitions)
        ≡ holds t (map (hoist states) transitions))
      × (is_distinct (normalized_transitions states transitions) ≡ true)
unfolding normalized_transitions
normalized_transitions_lem states transitions t = (
  holds-collect t (map (hoist states) transitions) [],
  is_distinct-collect (map (hoist states) transitions) [] refl,
)
