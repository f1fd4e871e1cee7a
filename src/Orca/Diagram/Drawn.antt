-- ===== src/Orca/Diagram/Drawn.antt =====
-- The diagram of a machine that was read from a text is built without an exception.
use orca_validator.Prelude.{
  ◌≡◌, refl, ap, ◌∙◌, Bool, true, false, ◌&&◌, ◌||◌, List, [], ◌∷◌, ◌++◌, Option, none, some, any,
  all, ℕ, Text, is_empty, text_eq, arith, Option-cases, inl, inr, text_eq_refl, splitlines,
  Bool-cases, ◌⊎◌,
}
use orca_validator.Orca.Fsm.{
  FsmState, Edge, Heading, Stack, pop, top, state_of, cons_edge, state_heading, transition_of,
  parse_lines, parse_machine,
}
use orca_validator.Orca.Diagram.{
  is_parent, is_child_of, add_parent, parents_of, place_text, sorted, composites, as_text, between,
  box, label_of, boxes, diagram, build_mermaid,
}

abbrev pub is_called : Text → FsmState → Bool
is_called p s = text_eq s.id p

-- The composite is open.
abbrev is_open_in : Text → Stack → Bool
is_open_in p stack = any (λ ((l, id) : ℕ × Text). text_eq id p) stack

pop-is_open_in :
    (p : Text) (level : ℕ) (stack : Stack)
    → is_open_in p (pop level stack) ≡ true
    → is_open_in p stack ≡ true
unfolding pop
pop-is_open_in p level [] h = h
pop-is_open_in p level ((l, id) ∷ stack) h = ground (arith, h, pop-is_open_in p level stack)

top-is_open_in :
    (p : Text) (stack : Stack) → is_parent p (top stack) ≡ true → is_open_in p stack ≡ true
top-is_open_in p [] h = cc
top-is_open_in p ((l, id) ∷ stack) h = ground (arith, h)

cons_edge_states : (e : Option Edge) (p : List FsmState × List Edge) → (cons_edge e p).0 ≡ p.0
cons_edge_states none p = refl
cons_edge_states (some e) (states, edges) = refl

parse_lines_edge :
    (stack : Stack) (raw : Text) (lines : List Text)
    → state_heading raw ≡ none
    → (parse_lines stack (raw ∷ lines)).0 ≡ (parse_lines stack lines).0
unfolding parse_lines
parse_lines_edge stack raw lines e =
    rw (e, parse_lines) (cons_edge_states (transition_of raw) (parse_lines stack lines))

parse_lines_state :
    (stack : Stack) (raw : Text) (lines : List Text) (d : Heading)
    → state_heading raw ≡ some d
    → (parse_lines stack (raw ∷ lines)).0
      ≡ state_of d lines (pop d.level stack)
        ∷ (parse_lines ((d.level, d.id) ∷ pop d.level stack) lines).0
unfolding parse_lines
parse_lines_state stack raw lines d e = rw (e, parse_lines) refl

-- Whatever is the parent of a state is the id of a state, or of a composite that was open before.
abbrev HasParents : Text → Stack → List FsmState → Type 0
HasParents p stack states =
    any (is_child_of p) states ≡ true → (is_open_in p stack || any (is_called p) states) ≡ true

HasParents-state :
    (p : Text) (stack : Stack) (d : Heading) (lines : List Text) (states : List FsmState)
    → HasParents p ((d.level, d.id) ∷ pop d.level stack) states
    → HasParents p stack (state_of d lines (pop d.level stack) ∷ states)
unfolding state_of
HasParents-state p stack d lines states before h =
    ground (arith, h, before, top-is_open_in p (pop d.level stack), pop-is_open_in p d.level stack)

parents_none : (p : Text) (stack : Stack) → HasParents p stack (parse_lines stack []).0
unfolding parse_lines
parents_none p stack h = cc

parents-parse_lines :
    (p : Text) (stack : Stack) (lines : List Text) → HasParents p stack (parse_lines stack lines).0
parents-parse_lines p stack [] = parents_none p stack
parents-parse_lines p stack (raw ∷ lines) = elim (Option-cases (state_heading raw)) [
  | inl e ↦ rw (parse_lines_edge stack raw lines e) (parents-parse_lines p stack lines)
  | inr (d, e) ↦ rw (parse_lines_state stack raw lines d e) (
      HasParents-state p stack d lines (parse_lines ((d.level, d.id) ∷ pop d.level stack) lines).0
        (parents-parse_lines p ((d.level, d.id) ∷ pop d.level stack) lines))
]

none_called :
    (p : Text) (states : List FsmState)
    → label_of states p ≡ none
    → any (is_called p) states ≡ false
unfolding label_of
none_called p [] e = refl
none_called p (s ∷ states) e = elim (Option-cases (label_of states p)) [
  | inl d ↦ let k = rw d at e in ground (arith, k, none_called p states d)
  | inr (label, d) ↦ let k = rw d at e in cc
]

label_of_called :
    (p : Text) (states : List FsmState)
    → any (is_called p) states ≡ true
    → (label : Text) × (label_of states p ≡ some label)
unfolding label_of
label_of_called p [] h = cc
label_of_called p (s ∷ states) h = elim (Option-cases (label_of states p)) [
  | inl e ↦ (s.label, rw e (ground (arith, h, label_of_called p states, none_called p states e)))
  | inr (label, e) ↦ (label, rw e refl)
]

-- The composites are parents of states.
any-place_text :
    (q : Text → Bool) (t : Text) (us : List Text) → all q (place_text t us) ≡ (q t && all q us)
any-place_text q t [] = refl
any-place_text q t (u ∷ us) = ground (arith, any-place_text q t us)

all-sorted : (q : Text → Bool) (ts : List Text) → all q (sorted ts) ≡ all q ts
unfolding sorted
all-sorted q [] = refl
all-sorted q (t ∷ ts) = any-place_text q t (sorted ts) ∙ ap (λ b. q t && b) (all-sorted q ts)

boxes_drawn :
    (states : List FsmState) (transitions : List Edge) (cs : List Text)
    → all (λ c. any (is_called c) states) cs ≡ true
    → (lines : List Text) × (boxes states transitions cs ≡ some lines)
unfolding boxes
boxes_drawn states transitions [] h = ([], refl)
boxes_drawn states transitions (c ∷ cs) h =
    let (label, e) = label_of_called c states (ground (arith, h)) in
    let (rest, e') = boxes_drawn states transitions cs (ground (arith, h)) in
    (box states transitions c label ++ rest, rw (e, e') refl)

all-add_parent :
    (q : Text → Bool) (o : Option Text) (cs : List Text)
    → all q cs ≡ true
    → ((p : Text) → is_parent p o ≡ true → q p ≡ true)
    → all q (add_parent o cs) ≡ true
all-add_parent q none cs h k = h
all-add_parent q (some p) cs h k = ground (arith, h, k p, text_eq_refl p)

all-parents_of :
    (q : Text → Bool) (states : List FsmState)
    → ((p : Text) → any (is_child_of p) states ≡ true → q p ≡ true)
    → all q (parents_of states) ≡ true
unfolding parents_of
all-parents_of q [] h = refl
all-parents_of q (s ∷ states) h =
    all-add_parent q s.parent (parents_of states)
      (all-parents_of q states (λ p k. h p (ground (arith, k)))) (λ p k. h p (ground (arith, k)))

composites_called :
    (orca_md : Text)
    → all (λ c. any (is_called c) (parse_machine orca_md).0) (composites (parse_machine orca_md).0)
      ≡ true
unfolding composites parse_machine
composites_called orca_md =
    let states = (parse_lines [] (splitlines orca_md)).0 in
    all-sorted (λ c. any (is_called c) states) (parents_of states)
    ∙ all-parents_of (λ c. any (is_called c) states) states
        (λ p h. parents-parse_lines p [] (splitlines orca_md) h)

between_lines :
    (states : List FsmState) (transitions : List Edge) (drawn : Option (List Text))
    (lines : List Text)
    → drawn ≡ some lines
    → (t : Text) × (as_text (between states transitions drawn) ≡ some (some t))
unfolding between
between_lines states transitions drawn lines e =
    (_, ap (λ d. as_text (between states transitions d)) e)

diagram_drawn :
    (orca_md : Text)
    → (t : Text) × (as_text (diagram (parse_machine orca_md).0 (parse_machine orca_md).1)
        ≡ some (some t))
unfolding diagram
diagram_drawn orca_md =
    let (states, transitions) = parse_machine orca_md in
    let (lines, e) =
      boxes_drawn states transitions (composites states) (composites_called orca_md) in
    between_lines states transitions (boxes states transitions (composites states)) lines e

build_mermaid-none :
    (orca_md : Text) → is_empty (parse_machine orca_md).0 ≡ true → build_mermaid orca_md ≡ some none
unfolding build_mermaid
build_mermaid-none orca_md e = rw e refl

build_mermaid_some :
    (orca_md : Text)
    → is_empty (parse_machine orca_md).0 ≡ false
    → build_mermaid orca_md ≡ as_text (diagram (parse_machine orca_md).0 (parse_machine orca_md).1)
unfolding build_mermaid
build_mermaid_some orca_md e = rw e refl

-- The diagram of a machine's text is `None` where no state was read, and is drawn everywhere else: a
-- composite is always a state of the machine, so its label is found and nothing is raised.
pub build_mermaid-drawn :
    (orca_md : Text)
    → (is_empty (parse_machine orca_md).0 ≡ true) × (build_mermaid orca_md ≡ some none)
      ⊎ (is_empty (parse_machine orca_md).0 ≡ false)
        × ((t : Text) × (build_mermaid orca_md ≡ some (some t)))
build_mermaid-drawn orca_md =
    let states = (parse_machine orca_md).0 in
    elim (Bool-cases (is_empty states)) [
      | inl e ↦ inl (e, build_mermaid-none orca_md e)
      | inr e ↦ let (t, d) = diagram_drawn orca_md in inr (e, (t, build_mermaid_some orca_md e ∙ d))
    ]
