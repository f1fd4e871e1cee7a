-- ===== src/Orca/Hoisting/Reread.antt =====
-- The verifier's copy, read again, has the hoisted transitions.
use orca_validator.Prelude.{
  ℕ, ◌≡◌, refl, ap, ◌∙◌, Bool, true, false, not, ◌&&◌, ◌||◌, List, [], ◌∷◌, ◌++◌, append_assoc,
  Option, none, some, map, any, all, arith, inl, inr, Option-cases, Text, lit, join, strip, lstrip,
  contains, before, rstrip, is_space, is_empty, is_break, is_open, splitlines, splitlines-feed,
  splitlines-append,
}
use orca_validator.Orca.Fsm.{
  FsmState, Edge, Stack, state_heading, transition_of, cons_edge, pop, parse_lines, parse_machine,
}
use orca_validator.Orca.Hoisting.{
  normalized_transitions, row_text, table_lines, head_of, with_table, is_child,
  normalize_for_verification,
}
use orca_validator.Orca.Hoisting.Rows.{is_row, transition_of-row_text}

-- The transitions of some lines; they do not depend on the composites that are open.
abbrev pub edge_before : Option Edge → List Edge → List Edge
edge_before none edges = edges
edge_before (some e) edges = e ∷ edges

unfoldable pub edges_in : List Text → List Edge
edges_in [] = []
edges_in (raw ∷ lines) = elim (state_heading raw) [
  | some h ↦ edges_in lines
  | none ↦ edge_before (transition_of raw) (edges_in lines)
]

cons_edge_lem :
    (e : Option Edge) (p : List FsmState × List Edge) → (cons_edge e p).1 ≡ edge_before e p.1
cons_edge_lem none p = refl
cons_edge_lem (some e) (states, edges) = refl

parse_lines-edges_in :
    (stack : Stack) (lines : List Text) → (parse_lines stack lines).1 ≡ edges_in lines
unfolding parse_lines edges_in
parse_lines-edges_in stack [] = refl
parse_lines-edges_in stack (raw ∷ lines) = elim (Option-cases (state_heading raw)) [
  | inl e ↦
      rw (e, parse_lines, edges_in)
        (cons_edge_lem (transition_of raw) (parse_lines stack lines)
          ∙ ap (edge_before (transition_of raw)) (parse_lines-edges_in stack lines))
  | inr (h, e) ↦
      rw (e, parse_lines, edges_in)
        (parse_lines-edges_in ((h.level, h.id) ∷ pop h.level stack) lines)
]

edge_before-append :
    (e : Option Edge) (es fs : List Edge) → edge_before e (es ++ fs) ≡ edge_before e es ++ fs
edge_before-append none es fs = refl
edge_before-append (some e) es fs = refl

edges_in-append : (ls ks : List Text) → edges_in (ls ++ ks) ≡ edges_in ls ++ edges_in ks
unfolding edges_in
edges_in-append [] ks = refl
edges_in-append (raw ∷ ls) ks = elim (Option-cases (state_heading raw)) [
  | inl e ↦
      rw (e, edges_in)
        (ap (edge_before (transition_of raw)) (edges_in-append ls ks)
          ∙ edge_before-append (transition_of raw) (edges_in ls) (edges_in ks))
  | inr (h, e) ↦ rw (e, edges_in) (edges_in-append ls ks)
]

-- A row is no heading of a state.
state_heading-row_text : (e : Edge) → state_heading (row_text e) ≡ none
unfolding state_heading
state_heading-row_text e = refl

all_rows : (es : List Edge) → all is_row es ≡ true → edges_in (map row_text es) ≡ es
unfolding edges_in
all_rows [] h = refl
all_rows (e ∷ es) h =
    let read = transition_of-row_text e (ground (arith, h)) in
    let rest = all_rows es (ground (arith, h)) in
    rw (state_heading-row_text e, edges_in)
      (ap (λ x. edge_before x (edges_in (map row_text es))) read ∙ ap (◌∷◌ e) rest)

edges_in-table_lines : edges_in table_lines ≡ []
unfolding edges_in state_heading transition_of strip rstrip lstrip is_space contains
edges_in-table_lines = refl

-- Each line and the line feed behind it.
abbrev unlines : List Text → Text
unlines [] = []
unlines (l ∷ ls) = l ++ 10 ∷ unlines ls

join-unlines : (l : Text) (ls : List Text) → join (lit "\n") (l ∷ ls) ++ lit "\n" ≡ unlines (l ∷ ls)
unfolding join
join-unlines l [] = refl
join-unlines l (k ∷ ls) = append_assoc l _ _ ∙ ap (λ t. l ++ 10 ∷ t) (join-unlines k ls)

abbrev is_line : Text → Bool
is_line t = all (λ c. not (is_break c)) t

splitlines-unlines : (ls : List Text) → all is_line ls ≡ true → splitlines (unlines ls) ≡ ls
unfolding splitlines
splitlines-unlines [] h = refl
splitlines-unlines (l ∷ ls) h =
    splitlines-feed l (unlines ls) (ground (arith, h))
    ∙ ap (◌∷◌ l) (splitlines-unlines ls (ground (arith, h)))

all_lines : (es : List Edge) → all is_row es ≡ true → all is_line (map row_text es) ≡ true
all_lines [] h = refl
all_lines (e ∷ es) h = ground (arith, h, all_lines es)

all-append : (p : Text → Bool) (ls ks : List Text) → all p (ls ++ ks) ≡ (all p ls && all p ks)
all-append p [] ks = refl
all-append p (l ∷ ls) ks = ground (arith, all-append p ls ks)

is_space-is_break : (c : ℕ) → is_break c ≡ true → is_space c ≡ true
unfolding is_break is_space
is_space-is_break c h = ground (arith, h)

open_cons :
    (c : ℕ) (t : Text)
    → (is_empty t || is_open t) ≡ true
    → (is_empty t && is_break c) ≡ false
    → is_open (c ∷ t) ≡ true
open_cons c [] h k = ground (arith, k)
open_cons c (d ∷ t) h k = h

-- What `rstrip` leaves is empty or does not end a line where it ends.
rstrip_open : (s : Text) → (is_empty (rstrip s) || is_open (rstrip s)) ≡ true
unfolding rstrip
rstrip_open [] = refl
rstrip_open (c ∷ s) = ground (arith, rstrip_open s, open_cons c (rstrip s), is_space-is_break c)

edges_in_blank : (ls : List Text) → edges_in ([] ∷ ls) ≡ edges_in ls
unfolding edges_in state_heading transition_of rstrip contains
edges_in_blank ls = refl

-- The transitions of a text that a line feed and another follow.
edges_behind :
    (head t : Text)
    → (is_empty head || is_open head) ≡ true
    → edges_in (splitlines (head ++ 10 ∷ t)) ≡ edges_in (splitlines head) ++ edges_in (splitlines t)
unfolding edges_in splitlines
edges_behind [] t h = ap edges_in (splitlines-feed [] t refl) ∙ edges_in_blank (splitlines t)
edges_behind (c ∷ head) t h =
    ap edges_in (splitlines-append (c ∷ head) t h)
    ∙ edges_in-append (splitlines (c ∷ head)) (splitlines t)

parse_machine_edges : (s : Text) → (parse_machine s).1 ≡ edges_in (splitlines s)
unfolding parse_machine
parse_machine_edges s = parse_lines-edges_in [] (splitlines s)

nested_states : (states : List FsmState) → any is_child states ≡ true → is_empty states ≡ false
nested_states [] h = cc
nested_states (s ∷ states) h = refl

normalize_nested :
    (orca_md : Text)
    → any is_child (parse_machine orca_md).0 ≡ true
    → normalize_for_verification orca_md
      ≡ with_table
          (head_of orca_md)
          (normalized_transitions (parse_machine orca_md).0 (parse_machine orca_md).1)
unfolding normalize_for_verification
normalize_nested orca_md nested = rw (nested, nested_states (parse_machine orca_md).0 nested) refl

-- The lines of the table and its rows.
lines_of_table :
    (es : List Edge)
    → all is_row es ≡ true
    → splitlines (unlines (table_lines ++ map row_text es)) ≡ table_lines ++ map row_text es
lines_of_table es h = splitlines-unlines (table_lines ++ map row_text es) (
    all-append is_line table_lines (map row_text es)
    ∙ rw (all_lines es h) (unfold is_break in refl))

edges_in-with_table :
    (head : Text) (es : List Edge)
    → (is_empty head || is_open head) ≡ true
    → all is_row es ≡ true
    → edges_in (splitlines (with_table head es)) ≡ edges_in (splitlines head) ++ es
edges_in-with_table head es opened rows =
    ap (λ t. edges_in (splitlines t)) (join-unlines head (table_lines ++ map row_text es))
    ∙ edges_behind head (unlines (table_lines ++ map row_text es)) opened
    ∙ ap (λ ls. edges_in (splitlines head) ++ edges_in ls) (lines_of_table es rows)
    ∙ ap (◌++◌ (edges_in (splitlines head))) (
        edges_in-append table_lines (map row_text es)
        ∙ ap (λ x. x ++ edges_in (map row_text es)) edges_in-table_lines
        ∙ all_rows es rows)

-- Where a machine has composite states and its hoisted transitions can be written as rows, the copy
-- that the verifier is given, read again, has the transitions that stood before the table and then
-- exactly the hoisted ones, in order.
pub parse_machine-normalize :
    (orca_md : Text)
    → any is_child (parse_machine orca_md).0 ≡ true
    → all is_row (normalized_transitions (parse_machine orca_md).0 (parse_machine orca_md).1) ≡ true
    → (parse_machine (normalize_for_verification orca_md)).1
      ≡ edges_in (splitlines (head_of orca_md))
        ++ normalized_transitions (parse_machine orca_md).0 (parse_machine orca_md).1
parse_machine-normalize orca_md nested rows =
    let (states, transitions) = parse_machine orca_md in
    parse_machine_edges (normalize_for_verification orca_md)
    ∙ ap (λ t. edges_in (splitlines t)) (normalize_nested orca_md nested)
    ∙ edges_in-with_table (head_of orca_md) (normalized_transitions states transitions)
        (unfold head_of in rstrip_open (before (lit "## transitions") orca_md)) rows
