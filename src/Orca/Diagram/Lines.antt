-- ===== src/Orca/Diagram/Lines.antt =====
-- The lines of the diagram that _build_mermaid returns (backend/orca/document_fsm.py): where each
-- transition is drawn.
use orca_validator.Prelude.{
  ◌≡◌, refl, ap, ◌∙◌, Bool, ◌&&◌, List, [], ◌∷◌, ◌++◌, Option, none, some, map, any, keep, arith,
  Text, lit, join, text_eq_iff, if◌then◌else◌,
}
use orca_validator.Orca.Fsm.{FsmState, Edge}
use orca_validator.Orca.Hoisting.{parent_of}
use orca_validator.Orca.Diagram.{
  is_parent, is_child_of, children_of, composites, shared, inside, is_in, internal, toplevel,
  edge_line, label_line, start_line, end_line, margin, indent, top_lines, box, and_box, box_of,
  boxes, label_of, diagram, between, parents_of,
}
use orca_validator.Orca.Diagram.Placed.{
  copies, times, boxed, copies-sorted, copies-parents_of, times-drawn,
}

-- Both ends of the transition have this parent.
abbrev pub lies_in : List FsmState → Text → Edge → Bool
unfolding parent_of
lies_in states c e =
    is_parent c (parent_of states e.source) && is_parent c (parent_of states e.target)

abbrev pub edges_of : List FsmState → List Edge → Text → List Edge
unfolding lies_in
edges_of states transitions c = keep (lies_in states c) transitions

-- The lines of one box: its states, and then the transitions between them, each on a line.
abbrev pub box_lines : List FsmState → List Edge → Text → Text → List Text
unfolding edges_of
box_lines states transitions c label =
    let kids = children_of states c in
    (lit "  state \"" ++ (label ++ (lit "\" as " ++ (c ++ lit " {"))))
    ∷ (map (label_line indent) kids
        ++ (map (start_line indent) (keep (λ s. s.initial) kids)
            ++ (map (end_line indent) (keep (λ s. s.final) kids)
                ++ (map (edge_line indent) (edges_of states transitions c) ++ lit "  }" ∷ []))))

-- The lines of the boxes of some composites, and the transitions that these lines draw.
pub data Boxes (states : List FsmState) (transitions : List Edge)
    : List Text → List Text → List Edge → Type 0 where
  no_box : Boxes states transitions [] [] []
  one_box :
      {cs lines : List Text} {es : List Edge} (c label : Text)
      → label_of states c ≡ some label
      → Boxes states transitions cs lines es
      → Boxes states transitions
          (c ∷ cs)
          (box_lines states transitions c label ++ lines)
          (edges_of states transitions c ++ es)

-- A text that is the diagram of a machine.
pub record IsDrawn (states : List FsmState) (transitions : List Edge) (d : Text) : Type 0 where
  pub lines : List Text
  pub boxed_edges : List Edge
  pub top_edges : List Edge
  pub text : d ≡ join (lit "\n") (top_lines states ++ (lines ++ map (edge_line margin) top_edges))
  pub boxes : Boxes states transitions (composites states) lines boxed_edges
  pub listed :
      (c : Text) → copies c (composites states) ≡ (if any (is_child_of c) states then 1 else 0)
  pub once : (e : Edge) → times e (boxed_edges ++ top_edges) ≡ times e transitions

lies_in-shared :
    (c : Text) (o o' : Option Text) → is_in c (shared o o') ≡ (is_parent c o && is_parent c o')
lies_in-shared c none o' = refl
lies_in-shared c (some p) none = ground arith
lies_in-shared c (some p) (some q) =
    ground (arith, text_eq_iff p q, text_eq_iff c p, text_eq_iff p c, text_eq_iff q c)

keep_same : (p q : Edge → Bool) (es : List Edge) → ((e : Edge) → p e ≡ q e) → keep p es ≡ keep q es
keep_same p q [] h = refl
keep_same p q (e ∷ es) h = ground (arith, h e, keep_same p q es h)

internal-edges_of :
    (states : List FsmState) (transitions : List Edge) (c : Text)
    → internal states transitions c ≡ edges_of states transitions c
unfolding internal inside edges_of lies_in
internal-edges_of states transitions c =
    keep_same _ _ transitions
      (λ e. lies_in-shared c (parent_of states e.source) (parent_of states e.target))

box-box_lines :
    (states : List FsmState) (transitions : List Edge) (c label : Text)
    → box states transitions c label ≡ box_lines states transitions c label
unfolding box box_lines
box-box_lines states transitions c label = rw (internal-edges_of states transitions c) refl

and_box-some :
    (o o' : Option (List Text)) (lines : List Text)
    → and_box o o' ≡ some lines
    → (first : List Text) × (rest : List Text) × (o ≡ some first)
      × (o' ≡ some rest)
      × (lines ≡ first ++ rest)
and_box-some none o' lines h = absurd cc
and_box-some (some first) none lines h = absurd cc
and_box-some (some first) (some rest) lines h = (first, rest, refl, refl, cc)

box_of-some :
    (states : List FsmState) (transitions : List Edge) (c : Text) (o : Option Text)
    (lines : List Text)
    → box_of states transitions c o ≡ some lines
    → (label : Text) × (o ≡ some label) × (lines ≡ box states transitions c label)
unfolding box_of
box_of-some states transitions c none lines h = absurd cc
box_of-some states transitions c (some label) lines h = (label, refl, cc)

boxes-Boxes :
    (states : List FsmState) (transitions : List Edge) (cs lines : List Text)
    → boxes states transitions cs ≡ some lines
    → Boxes states transitions cs lines (boxed states transitions cs)
unfolding boxes
boxes-Boxes states transitions [] lines h = let none_there : lines ≡ [] = cc in rw none_there no_box
boxes-Boxes states transitions (c ∷ cs) lines h =
    let (first, rest, e, e', joined) =
      and_box-some (box_of states transitions c (label_of states c)) (boxes states transitions cs)
        lines h in
    let (label, called, drawn) = box_of-some states transitions c (label_of states c) first e in
    let all_lines =
      joined ∙ ap (λ x. x ++ rest) (drawn ∙ box-box_lines states transitions c label) in
    rw (all_lines, internal-edges_of states transitions c)
      (one_box c label called (boxes-Boxes states transitions cs rest e'))

between-some :
    (states : List FsmState) (transitions : List Edge) (o : Option (List Text)) (d : Text)
    → between states transitions o ≡ some d
    → (lines : List Text) × (o ≡ some lines)
      × (d
          ≡ join
              (lit "\n")
              (top_lines states ++ (lines ++ map (edge_line margin) (toplevel states transitions))))
unfolding between
between-some states transitions none d h = absurd cc
between-some states transitions (some lines) d h = (lines, refl, cc)

-- Where the diagram of a machine is drawn, its text is, line by line: the states; for each parent of
-- a state, once, a box with the states that have this parent and then the transitions both of whose
-- ends have it; and then the other transitions. Every transition is drawn as often as the machine has
-- it.
pub diagram-IsDrawn :
    (states : List FsmState) (transitions : List Edge) (d : Text)
    → diagram states transitions ≡ some d
    → IsDrawn states transitions d
unfolding diagram composites
diagram-IsDrawn states transitions d h =
    let (lines, e, text) =
      between-some states transitions (boxes states transitions (composites states)) d h in
    record {
      lines = lines;
      boxed_edges = boxed states transitions (composites states);
      top_edges = toplevel states transitions;
      text = text;
      boxes = boxes-Boxes states transitions (composites states) lines e;
      listed = λ c. copies-sorted c (parents_of states) ∙ copies-parents_of c states;
      once = times-drawn states transitions;
    }
