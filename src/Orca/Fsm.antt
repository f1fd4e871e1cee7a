-- ===== src/Orca/Fsm.antt =====
-- backend/orca/document_fsm.py, _humanize and _parse_machine: the states and transitions of a
-- machine that was extracted from a document, read from its Markdown.
use orca_validator.Prelude.{
  ℕ, ◌+◌, ◌-◌, Bool, false, not, ◌&&◌, ◌||◌, List, [], ◌∷◌, Option, none, some, map, any, all, ◌==◌,
  leb, if◌then◌else◌, keep, length, drop, take, Text, lit, strip, rstrip, is_space, is_empty,
  text_eq, starts_with, contains, split, span, splitlines,
}

-- The keys "id", "label", "initial", "final" and "parent" of a state; `None` is the only parent that
-- is not a state.
pub record FsmState : Type 0 where
  pub id : Text
  pub label : Text
  pub initial : Bool
  pub final : Bool
  pub parent : Option Text

pub record Edge : Type 0 where
  pub source : Text
  pub event : Text
  pub target : Text

-- Characters of ASCII: the ids are made of these.
abbrev pub is_lower : ℕ → Bool
is_lower c = leb b'a' c && leb c b'z'

abbrev pub is_upper : ℕ → Bool
is_upper c = leb b'A' c && leb c b'Z'

abbrev pub to_upper : ℕ → ℕ
to_upper c = if is_lower c then c - 32 else c

abbrev pub to_lower : ℕ → ℕ
to_lower c = if is_upper c then c + 32 else c

-- `[A-Za-z0-9_]`
abbrev pub is_id_char : ℕ → Bool
is_id_char c = is_lower c || is_upper c || (leb b'0' c && leb c b'9') || c == b'_'

-- `re.sub(r"_(state|phase|status|st)$", "", sid)`
abbrev pub suffixes : List Text
suffixes = lit "_state" ∷ lit "_phase" ∷ lit "_status" ∷ lit "_st" ∷ []

unfoldable pub drop_suffix : Text → Text
drop_suffix [] = []
drop_suffix (c ∷ s) =
    let rest = drop_suffix s in
    if any (λ suffix. text_eq suffix (c ∷ s)) suffixes then [] else c ∷ rest

-- `s.title()`; the flag says whether a letter came just before.
unfoldable pub title_from : Bool → Text → Text
title_from after [] = []
title_from after (c ∷ s) =
    (if after then to_lower c else to_upper c) ∷ title_from (is_lower c || is_upper c) s

abbrev pub or_text : Text → Text → Text
or_text a b = if is_empty a then b else a

-- `_humanize`, for the ids that the pattern of a state lets through
unfoldable pub humanize : Text → Text
unfolding drop_suffix title_from
humanize sid =
    or_text (title_from false (strip (map (λ c. if c == b'_' then b' ' else c) (drop_suffix sid))))
      sid

-- What the pattern of a state's line captures: the level, the id and the annotation.
pub record Heading : Type 0 where
  pub level : ℕ
  pub id : Text
  pub annotation : Text

abbrev pub is_hash : ℕ → Bool
is_hash c = c == b'#'

-- The text up to the first `]`, and what follows that.
unfoldable pub until_bracket : Text → Option (Text × Text)
until_bracket [] = none
until_bracket (c ∷ s) =
    let rest = until_bracket s in
    if c == b']' then some ([], s) else elim rest [ none ↦ none | some (a, r) ↦ some (c ∷ a, r) ]

-- `\s*$` behind what was captured
abbrev pub ended : ℕ → Text → Option (Text × Text) → Option Heading
ended level id none = none
ended level id (some (annotation, rest)) =
    if all is_space rest
    then some (record { level = level; id = id; annotation = annotation })
    else none

-- `(?:\[([^\]]*)\])?`
abbrev pub annotated : Text → Option (Text × Text)
annotated [] = some ([], [])
annotated (c ∷ s) = if c == b'[' then until_bracket s else some ([], c ∷ s)

abbrev pub word_state : Text
word_state = lit "state"

-- `^(#+)\s+state\s+([A-Za-z0-9_]+)\s*(?:\[([^\]]*)\])?\s*$` at a line: no run can be cut shorter for
-- the rest to match.
unfoldable pub state_heading : Text → Option Heading
unfolding span until_bracket
state_heading raw =
    let (hashes, a) = span is_hash raw in
    let (gap, b) = span is_space a in
    let (gap', c) = span is_space (drop (length word_state) b) in
    let (id, d) = span is_id_char c in
    let (gap'', e) = span is_space d in
    if is_empty hashes
      || is_empty gap
      || not (starts_with b word_state)
      || is_empty gap'
      || is_empty id
    then none
    else ended (length hashes) id (annotated e)

-- `^#+\s+state`
unfoldable pub is_heading : Text → Bool
unfolding span
is_heading raw =
    let (hashes, a) = span is_hash raw in
    let (gap, b) = span is_space a in
    not (is_empty hashes) && (not (is_empty gap) && starts_with b word_state)

-- `t.lstrip(">").strip().replace('"', "").replace(":", "")`
abbrev pub description : Text → Text
description t = keep (λ c. not (c == b'"') && not (c == b':')) (strip (span (λ c. c == b'>') t).1)

-- The label among the next lines: the first that begins with `>`, before another state.
unfoldable pub label_among : List Text → Text
unfolding is_heading
label_among [] = []
label_among (line ∷ lines) =
    if is_heading line
    then []
    else if starts_with (strip line) (lit ">")
    then description (strip line)
    else label_among lines

-- The open composites, the innermost first: their heading levels and ids.
abbrev pub Stack : Type 0
Stack = List (ℕ × Text)

-- `while stack and stack[-1][0] >= level: stack.pop()`
unfoldable pub pop : ℕ → Stack → Stack
pop level [] = []
pop level ((l, id) ∷ stack) =
    let rest = pop level stack in if leb level l then rest else (l, id) ∷ stack

abbrev pub top : Stack → Option Text
top [] = none
top ((l, id) ∷ stack) = some id

-- The state of a heading, from the lines behind it and the composites that are open.
unfoldable pub state_of : Heading → List Text → Stack → FsmState
unfolding humanize label_among
state_of h lines stack = record {
  id = h.id;
  label = take 52 (or_text (label_among (take 3 lines)) (humanize h.id));
  initial = contains (lit "initial") h.annotation;
  final = contains (lit "final") h.annotation;
  parent = top stack;
}

-- `^\|(.+)\|\s*$` at a line: the text between the first bar and the last, which only white space
-- follows.
abbrev pub bar : ℕ
bar = b'|'

unfoldable pub before_bar : Text → Option Text
before_bar [] = none
before_bar (c ∷ []) = if c == bar then some [] else none
before_bar (c ∷ d ∷ s) =
    let rest = before_bar (d ∷ s) in elim rest [ none ↦ none | some t ↦ some (c ∷ t) ]

abbrev pub after_bar : Text → Option Text
after_bar [] = none
after_bar (c ∷ s) = if c == bar then before_bar s else none

-- `set(cell) - set("-: ")`
abbrev pub is_marked : Text → Bool
is_marked cell = any (λ c. not (c == b'-' || c == b':' || c == b' ')) cell

-- `cell.lower() != "source"`: no other character has a lower case letter of this word.
abbrev pub is_title : Text → Bool
is_title cell = text_eq (map to_lower cell) (lit "source")

-- The transition of the cells, where there are four and the first is neither empty nor a title nor a
-- rule.
unfoldable pub edge_of : List Text → Option Edge
edge_of (source ∷ event ∷ guard ∷ target ∷ cells) =
    if not (is_empty source) && (not (is_title source) && is_marked source)
    then some (record { source = source; event = event; target = target })
    else none
edge_of _ = none

abbrev pub edge_in : Option Text → Option Edge
edge_in none = none
edge_in (some row) = if is_empty row then none else edge_of (map strip (split bar row))

unfoldable pub transition_of : Text → Option Edge
unfolding before_bar split edge_of
transition_of raw = if contains (lit "-->") raw then none else edge_in (after_bar (rstrip raw))

abbrev pub cons_state : FsmState → List FsmState × List Edge → List FsmState × List Edge
cons_state s (states, edges) = (s ∷ states, edges)

abbrev pub cons_edge : Option Edge → List FsmState × List Edge → List FsmState × List Edge
cons_edge none parsed = parsed
cons_edge (some e) (states, edges) = (states, e ∷ edges)

-- The loop over the lines.
unfoldable pub parse_lines : Stack → List Text → List FsmState × List Edge
unfolding state_heading state_of transition_of pop
parse_lines stack [] = ([], [])
parse_lines stack (raw ∷ lines) = elim (state_heading raw) [
  | some h ↦
      let open_stack = pop h.level stack in
      cons_state (state_of h lines open_stack) (parse_lines ((h.level, h.id) ∷ open_stack) lines)
  | none ↦ cons_edge (transition_of raw) (parse_lines stack lines)
]

-- `_parse_machine`
unfoldable pub parse_machine : Text → List FsmState × List Edge
unfolding parse_lines
parse_machine orca_md = parse_lines [] (splitlines orca_md)
