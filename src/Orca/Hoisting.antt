-- ===== src/Orca/Hoisting.antt =====
-- backend/orca/document_fsm.py, _normalize_for_verification: the copy of an extracted machine that the
-- verifier is given, its transitions rewritten.
pub mod Covered
pub mod Leaving
pub mod Rows
pub mod Reread
pub mod Given
use orca_validator.Orca.Fsm.{FsmState, Edge, parse_machine}
use orca_validator.Prelude.{
  ◌||◌, lit, join, before, rstrip, Bool, true, false, not, ◌&&◌, List, [], ◌∷◌, ◌++◌, Option, none,
  some, map, any, Text, is_empty, text_eq, if◌then◌else◌,
}

-- `(by_id.get(sid) or {}).get("parent")`; of two states with one id, `by_id` holds the last.
unfoldable pub parent_of : List FsmState → Text → Option Text
parent_of [] sid = none
parent_of (s ∷ states) sid =
    let rest = parent_of states sid in
    if any (λ (r : FsmState). text_eq r.id sid) states
    then rest
    else if text_eq s.id sid
    then s.parent
    else none

-- `parent_of(tgt) != ps`
abbrev pub is_outside : Option Text → Text → Bool
is_outside none ps = true
is_outside (some p) ps = not (text_eq p ps)

-- The source of the transition as the verifier is given it: a child that leaves its composite is
-- replaced by its parent.
abbrev pub hoisted_source : List FsmState → Edge → Option Text → Text
hoisted_source states t none = t.source
hoisted_source states t (some ps) =
    if not (is_empty ps) && (is_outside (parent_of states t.target) ps && not (text_eq t.target ps))
    then ps
    else t.source

unfoldable pub hoist : List FsmState → Edge → Edge
unfolding parent_of
hoist states t = record t { source = hoisted_source states t (parent_of states t.source) }

-- The equality of the triples.
unfoldable pub edge_eq : Edge → Edge → Bool
edge_eq a b = text_eq a.source b.source && (text_eq a.event b.event && text_eq a.target b.target)

-- `t in seen`
abbrev pub holds : Edge → List Edge → Bool
holds t edges = any (λ x. edge_eq x t) edges

-- The loop; `seen` holds what `norm` holds.
unfoldable pub collect : List Edge → List Edge → List Edge
collect [] norm = norm
collect (t ∷ ts) norm = collect ts (if holds t norm then norm else norm ++ t ∷ [])

-- `norm` after the loop
unfoldable pub normalized_transitions : List FsmState → List Edge → List Edge
unfolding hoist collect
normalized_transitions states transitions = collect (map (hoist states) transitions) []

-- `f"| {s} | {e} | | {t} | |"`
abbrev pub row_text : Edge → Text
row_text e =
    lit "| " ++ (e.source ++ (lit " | " ++ (e.event ++ (lit " | | " ++ (e.target ++ lit " | |")))))

-- The lines between the head and the rows.
abbrev pub table_lines : List Text
table_lines =
    []
    ∷ lit "## transitions"
    ∷ lit "| Source | Event | Guard | Target | Action |"
    ∷ lit "|---|---|---|---|---|"
    ∷ []

-- `orca_md.split("## transitions")[0].rstrip()`
unfoldable pub head_of : Text → Text
unfolding before rstrip
head_of orca_md = rstrip (before (lit "## transitions") orca_md)

-- `"\n".join(lines) + "\n"`
abbrev pub with_table : Text → List Edge → Text
with_table head norm = join (lit "\n") (head ∷ (table_lines ++ map row_text norm)) ++ lit "\n"

-- `s["parent"]`, as a test
abbrev pub is_child : FsmState → Bool
is_child s = elim s.parent [ none ↦ false | some p ↦ not (is_empty p) ]

-- `_normalize_for_verification`: a machine without composite states is handed on as it is.
unfoldable pub normalize_for_verification : Text → Text
unfolding parse_machine normalized_transitions head_of
normalize_for_verification orca_md =
    let (states, transitions) = parse_machine orca_md in
    if is_empty states || not (any is_child states)
    then orca_md
    else with_table (head_of orca_md) (normalized_transitions states transitions)
