-- ===== src/Orca/Diagram.antt =====
-- backend/orca/document_fsm.py, _build_mermaid: the diagram of an extracted machine, composite states
-- as boxes around their states.
pub mod Placed
pub mod Drawn
pub mod Lines
use orca_validator.Prelude.{
  comes_first, Bool, true, false, not, ◌&&◌, ◌||◌, List, [], ◌∷◌, ◌++◌, Option, none, some, map,
  any, keep, Text, lit, join, is_empty, text_eq, leb, ltb, ◌==◌, if◌then◌else◌,
}
use orca_validator.Orca.Fsm.{FsmState, Edge, parse_machine}
use orca_validator.Orca.Hoisting.{is_child, parent_of}

abbrev pub is_parent : Text → Option Text → Bool
is_parent p none = false
is_parent p (some q) = not (is_empty q) && text_eq q p

-- `s["parent"]` is `c`, and is not empty.
abbrev pub is_child_of : Text → FsmState → Bool
is_child_of c s = is_parent c s.parent

-- `children[c]`
abbrev pub children_of : List FsmState → Text → List FsmState
children_of states c = keep (is_child_of c) states

abbrev pub add_parent : Option Text → List Text → List Text
add_parent none cs = cs
add_parent (some p) cs = if is_empty p || any (λ c. text_eq c p) cs then cs else p ∷ cs

-- `set(children)`
unfoldable pub parents_of : List FsmState → List Text
parents_of [] = []
parents_of (s ∷ states) = add_parent s.parent (parents_of states)

abbrev pub place_text : Text → List Text → List Text
place_text t [] = t ∷ []
place_text t (u ∷ us) = if comes_first u t then u ∷ place_text t us else t ∷ u ∷ us

unfoldable pub sorted : List Text → List Text
sorted [] = []
sorted (t ∷ ts) = place_text t (sorted ts)

-- `sorted(composites)`
unfoldable pub composites : List FsmState → List Text
unfolding parents_of sorted
composites states = sorted (parents_of states)

-- `by_id[c]["label"]`; `none` is the KeyError. Of two states with one id, `by_id` holds the last.
unfoldable pub label_of : List FsmState → Text → Option Text
label_of [] c = none
label_of (s ∷ states) c = elim (label_of states c) [
  | some label ↦ some label
  | none ↦ if text_eq s.id c then some s.label else none
]

-- `ps and ps == pt`
abbrev pub shared : Option Text → Option Text → Option Text
shared (some ps) (some pt) = if not (is_empty ps) && text_eq ps pt then some ps else none
shared _ _ = none

-- The composite that a transition lies in; `none` is the top level.
unfoldable pub inside : List FsmState → Edge → Option Text
unfolding parent_of
inside states e = shared (parent_of states e.source) (parent_of states e.target)

abbrev pub is_in : Text → Option Text → Bool
is_in c none = false
is_in c (some p) = text_eq c p

abbrev pub is_top : Option Text → Bool
is_top none = true
is_top (some p) = false

-- `internal[c]`
unfoldable pub internal : List FsmState → List Edge → Text → List Edge
unfolding inside
internal states transitions c = keep (λ e. is_in c (inside states e)) transitions

unfoldable pub toplevel : List FsmState → List Edge → List Edge
unfolding inside
toplevel states transitions = keep (λ e. is_top (inside states e)) transitions

-- `edge(src, evt, tgt, ind)`
abbrev pub edge_line : Text → Edge → Text
edge_line ind e =
    ind
    ++ (e.source
        ++ (lit " --> " ++ (e.target ++ (if is_empty e.event then [] else lit " : " ++ e.event))))

abbrev pub label_line : Text → FsmState → Text
label_line ind s = ind ++ (s.id ++ (lit " : " ++ s.label))

abbrev pub start_line : Text → FsmState → Text
start_line ind s = ind ++ (lit "[*] --> " ++ s.id)

abbrev pub end_line : Text → FsmState → Text
end_line ind s = ind ++ (s.id ++ lit " --> [*]")

abbrev pub margin : Text
margin = lit "  "

abbrev pub indent : Text
indent = lit "    "

-- The lines before the boxes.
unfoldable pub top_lines : List FsmState → List Text
unfolding parents_of
top_lines states =
    lit "stateDiagram-v2"
    ∷ lit "  direction LR"
    ∷ []
    ∷ (map (label_line margin) (
          keep (λ s. not (is_child s) && not (any (λ c. text_eq s.id c) (parents_of states)))
            states)
        ++ (map (start_line margin) (keep (λ s. s.initial && not (is_child s)) states)
            ++ map (end_line margin) (keep (λ s. s.final && not (is_child s)) states)))

-- The lines of a composite's box.
unfoldable pub box : List FsmState → List Edge → Text → Text → List Text
unfolding internal
box states transitions c label =
    let kids = children_of states c in
    (lit "  state \"" ++ (label ++ (lit "\" as " ++ (c ++ lit " {"))))
    ∷ (map (label_line indent) kids
        ++ (map (start_line indent) (keep (λ s. s.initial) kids)
            ++ (map (end_line indent) (keep (λ s. s.final) kids)
                ++ (map (edge_line indent) (internal states transitions c) ++ lit "  }" ∷ []))))

abbrev pub and_box : Option (List Text) → Option (List Text) → Option (List Text)
and_box (some lines) (some rest) = some (lines ++ rest)
and_box _ _ = none

abbrev pub box_of : List FsmState → List Edge → Text → Option Text → Option (List Text)
unfolding box
box_of states transitions c none = none
box_of states transitions c (some label) = some (box states transitions c label)

-- The loop over the composites; `none` is the KeyError.
unfoldable pub boxes : List FsmState → List Edge → List Text → Option (List Text)
unfolding box_of label_of
boxes states transitions [] = some []
boxes states transitions (c ∷ cs) =
    and_box (box_of states transitions c (label_of states c)) (boxes states transitions cs)

abbrev pub between : List FsmState → List Edge → Option (List Text) → Option Text
unfolding top_lines toplevel
between states transitions none = none
between states transitions (some lines) = some (
    join (lit "\n")
      (top_lines states ++ (lines ++ map (edge_line margin) (toplevel states transitions))))

-- The diagram of a machine that has states.
unfoldable pub diagram : List FsmState → List Edge → Option Text
unfolding boxes composites between
diagram states transitions =
    between states transitions (boxes states transitions (composites states))

abbrev pub as_text : Option Text → Option (Option Text)
as_text none = none
as_text (some t) = some (some t)

-- `_build_mermaid`: `none` is an exception, `some none` is `None`.
unfoldable pub build_mermaid : Text → Option (Option Text)
unfolding parse_machine diagram
build_mermaid orca_md =
    let (states, transitions) = parse_machine orca_md in
    if is_empty states then some none else as_text (diagram states transitions)
