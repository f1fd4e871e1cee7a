-- ===== src/Orca/Diagram/Placed.antt =====
-- How often a transition stands in the lists that the diagram is drawn from (backend/orca/document_fsm.py,
-- _build_mermaid).
use orca_validator.Prelude.{
  ℕ, suc, ◌+◌, ◌≡◌, refl, ap, ◌∙◌, Bool, true, false, ◌&&◌, ◌||◌, List, [], ◌∷◌, ◌++◌, Option, none,
  some, any, Text, is_empty, text_eq, arith, if◌then◌else◌, text_eq_iff, text_eq_refl, ◌≤◌,
}
use orca_validator.Orca.Fsm.{FsmState, Edge}
use orca_validator.Orca.Hoisting.{edge_eq, parent_of}
use orca_validator.Orca.Diagram.{
  is_parent, is_child_of, add_parent, parents_of, place_text, sorted, composites, shared, inside,
  is_in, is_top, internal, toplevel,
}

-- How often a name stands in a list.
abbrev pub copies : Text → List Text → ℕ
copies p [] = 0
copies p (c ∷ cs) = if text_eq c p then suc (copies p cs) else copies p cs

-- How often a transition stands in a list.
abbrev pub times : Edge → List Edge → ℕ
times e [] = 0
times e (f ∷ es) = if edge_eq f e then suc (times e es) else times e es

-- The transitions in the boxes, one box after the other.
abbrev pub boxed : List FsmState → List Edge → List Text → List Edge
boxed states transitions [] = []
boxed states transitions (c ∷ cs) = internal states transitions c ++ boxed states transitions cs

copies-place_text : (p t : Text) (us : List Text) → copies p (place_text t us) ≡ copies p (t ∷ us)
copies-place_text p t [] = refl
copies-place_text p t (u ∷ us) = ground (arith, copies-place_text p t us)

pub copies-sorted : (p : Text) (ts : List Text) → copies p (sorted ts) ≡ copies p ts
unfolding sorted
copies-sorted p [] = refl
copies-sorted p (t ∷ ts) = ground (arith, copies-place_text p t (sorted ts), copies-sorted p ts)

times-append : (e : Edge) (es fs : List Edge) → times e (es ++ fs) ≡ times e es + times e fs
times-append e [] fs = omega arith
times-append e (f ∷ es) fs = ground (arith, times-append e es fs)

-- How often a name stands in a list of texts, where the name may be none.
abbrev copies_of : Option Text → List Text → ℕ
copies_of none cs = 0
copies_of (some p) cs = copies p cs

copies_of_cons :
    (o : Option Text) (c : Text) (cs : List Text)
    → copies_of o (c ∷ cs) ≡ (if is_in c o then suc (copies_of o cs) else copies_of o cs)
copies_of_cons none c cs = refl
copies_of_cons (some p) c cs = refl

times-internal :
    (states : List FsmState) (e f : Edge) (es : List Edge) (c : Text)
    → times e (internal states (f ∷ es) c)
      ≡ (if is_in c (inside states f) && edge_eq f e then 1 else 0) + times e (internal states es c)
unfolding internal
times-internal states e f es c = ground arith

-- One transition more stands in as many boxes as its composite stands in the list.
times-boxed :
    (states : List FsmState) (e f : Edge) (es : List Edge) (cs : List Text)
    → times e (boxed states (f ∷ es) cs)
      ≡ (if edge_eq f e then copies_of (inside states f) cs else 0) + times e (boxed states es cs)
times-boxed states e f es [] = ground arith
times-boxed states e f es (c ∷ cs) = ground (
  arith,
  times-append e (internal states (f ∷ es) c) (boxed states (f ∷ es) cs),
  times-append e (internal states es c) (boxed states es cs),
  times-internal states e f es c,
  copies_of_cons (inside states f) c cs,
  times-boxed states e f es cs,
)

boxed_none : (states : List FsmState) (e : Edge) (cs : List Text) → times e (boxed states [] cs) ≡ 0
unfolding internal
boxed_none states e [] = refl
boxed_none states e (c ∷ cs) = boxed_none states e cs

toplevel_none : (states : List FsmState) (e : Edge) → times e (toplevel states []) ≡ 0
unfolding toplevel
toplevel_none states e = refl

times-toplevel :
    (states : List FsmState) (e f : Edge) (es : List Edge)
    → times e (toplevel states (f ∷ es))
      ≡ (if is_top (inside states f) && edge_eq f e then 1 else 0) + times e (toplevel states es)
unfolding toplevel
times-toplevel states e f es = ground arith

copies_absent : (p : Text) (cs : List Text) → any (λ c. text_eq c p) cs ≡ false → copies p cs ≡ 0
copies_absent p [] h = refl
copies_absent p (c ∷ cs) h = ground (arith, h, copies_absent p cs)

copies_present : (p : Text) (cs : List Text) → any (λ c. text_eq c p) cs ≡ true → 1 ≤ copies p cs
copies_present p [] h = cc
copies_present p (c ∷ cs) h = ground (arith, h, copies_present p cs)

copies_same : (p q : Text) (cs : List Text) → text_eq q p ≡ true → copies q cs ≡ copies p cs
copies_same p q cs h = ap (λ t. copies t cs) ((text_eq_iff q p).0 h)

copies-add_parent :
    (p : Text) (o : Option Text) (cs : List Text) (b : Bool)
    → copies p cs ≡ (if b then 1 else 0)
    → copies p (add_parent o cs) ≡ (if is_parent p o || b then 1 else 0)
copies-add_parent p none cs b h = h
copies-add_parent p (some q) cs b h =
    ground (arith, h, copies_absent q cs, copies_present q cs, copies_same p q cs)

pub copies-parents_of :
    (p : Text) (states : List FsmState)
    → copies p (parents_of states) ≡ (if any (is_child_of p) states then 1 else 0)
unfolding parents_of
copies-parents_of p [] = refl
copies-parents_of p (s ∷ states) =
    copies-add_parent p s.parent (parents_of states) (any (is_child_of p) states)
      (copies-parents_of p states)

is_parent_self :
    (p : Text) (o : Option Text) → o ≡ some p → is_empty p ≡ false → is_parent p o ≡ true
is_parent_self p o e k = rw e (ground (arith, k, text_eq_refl p))

parent_of_child :
    (states : List FsmState) (sid p : Text)
    → parent_of states sid ≡ some p
    → is_empty p ≡ false
    → any (is_child_of p) states ≡ true
unfolding parent_of
parent_of_child [] sid p h k = cc
parent_of_child (s ∷ states) sid p h k =
    ground (arith, h, k, parent_of_child states sid p, is_parent_self p s.parent)

-- A transition inside a composite lies in a composite that is listed once.
copies_of-inside :
    (states : List FsmState) (e : Edge)
    → copies_of (inside states e) (composites states) ≡ (if is_top (inside states e) then 0 else 1)
unfolding inside composites
copies_of-inside states e =
    shared_once (parent_of states e.source) (parent_of states e.target)
      (λ p. parent_of_child states e.source p)
  where
    shared_once :
        (o o' : Option Text)
        → ((p : Text) → o ≡ some p → is_empty p ≡ false → any (is_child_of p) states ≡ true)
        → copies_of (shared o o') (sorted (parents_of states))
          ≡ (if is_top (shared o o') then 0 else 1)
    shared_once none o' child = refl
    shared_once (some p) none child = refl
    shared_once (some p) (some q) child =
        ground
          (arith, child p refl, copies-sorted p (parents_of states), copies-parents_of p states)

-- The lists of the boxes and the one of the top level have every transition as often as the machine
-- has it, taken together, and nothing else.
pub times-drawn :
    (states : List FsmState) (transitions : List Edge) (e : Edge)
    → times e (boxed states transitions (composites states) ++ toplevel states transitions)
      ≡ times e transitions
times-drawn states [] e =
    times-append e (boxed states [] (composites states)) (toplevel states [])
    ∙ ground (arith, boxed_none states e (composites states), toplevel_none states e)
times-drawn states (f ∷ transitions) e = ground (
  arith,
  times-append e (boxed states (f ∷ transitions) (composites states))
      (toplevel states (f ∷ transitions)),
  times-append e (boxed states transitions (composites states)) (toplevel states transitions),
  times-boxed states e f transitions (composites states),
  times-toplevel states e f transitions,
  copies_of-inside states f,
  times-drawn states transitions e,
)
