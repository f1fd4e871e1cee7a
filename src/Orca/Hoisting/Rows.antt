-- ===== src/Orca/Hoisting/Rows.antt =====
-- A transition that is written as a row of a table is read back.
use orca_validator.Prelude.{
  ℕ, ◌≡◌, refl, ap, ◌∙◌, Bool, true, false, not, ◌&&◌, [], ◌∷◌, ◌++◌, append_assoc, some, map, all,
  arith, ◌==◌, if◌then◌else◌, Text, lit, strip, lstrip, rstrip, is_space, is_empty, text_eq,
  text_eq_iff, contains, split, split-cell, is_break,
}
use orca_validator.Orca.Hoisting.{row_text}
use orca_validator.Orca.Fsm.{
  Edge, bar, before_bar, after_bar, is_marked, is_title, edge_of, edge_in, transition_of,
}

-- A text that can stand in a cell: trimmed, and without a bar.
abbrev pub is_cell : Text → Bool
is_cell t = text_eq (strip t) t && all (λ c. not (c == bar)) t

-- A transition that a row can hold.
abbrev pub is_row : Edge → Bool
is_row e =
    is_cell e.source
    && (is_cell e.event
        && (is_cell e.target
            && (not (is_empty e.source)
                && (not (is_title e.source)
                    && (is_marked e.source
                        && (not (contains (lit "-->") (row_text e))
                            && all (λ c. not (is_break c)) (row_text e)))))))

is_empty-append_last : (t : Text) (c : ℕ) → is_empty (t ++ c ∷ []) ≡ false
is_empty-append_last [] c = refl
is_empty-append_last (d ∷ t) c = refl

rstrip_solid : (t : Text) (c : ℕ) → is_space c ≡ false → rstrip (t ++ c ∷ []) ≡ t ++ c ∷ []
unfolding rstrip
rstrip_solid [] c h = ground (arith, h)
rstrip_solid (d ∷ t) c h = ground (arith, rstrip_solid t c h, is_empty-append_last t c)

rstrip_padded : (t : Text) → rstrip (t ++ b' ' ∷ []) ≡ rstrip t
unfolding rstrip is_space
rstrip_padded [] = refl
rstrip_padded (d ∷ t) = ground (arith, rstrip_padded t)

lstrip_padded : (t : Text) → lstrip (if is_empty t then [] else b' ' ∷ t) ≡ lstrip t
unfolding lstrip is_space
lstrip_padded [] = refl
lstrip_padded (c ∷ t) = refl

strip_padded : (t : Text) → strip (b' ' ∷ (t ++ b' ' ∷ [])) ≡ strip t
unfolding strip is_space
strip_padded t = lstrip_padded (rstrip (t ++ b' ' ∷ [])) ∙ ap lstrip (rstrip_padded t)

before_bar_last : (t : Text) → before_bar (t ++ bar ∷ []) ≡ some t
unfolding before_bar
before_bar_last [] = refl
before_bar_last (c ∷ []) = refl
before_bar_last (c ∷ d ∷ t) = rw (before_bar_last (d ∷ t)) refl

-- A text between two blanks.
abbrev pad : Text → Text
pad t = b' ' ∷ (t ++ b' ' ∷ [])

-- The row between its first bar and its last.
abbrev cells_text : Edge → Text
cells_text e =
    pad e.source
    ++ bar ∷ (pad e.event ++ bar ∷ ((b' ' ∷ []) ++ bar ∷ (pad e.target ++ bar ∷ b' ' ∷ [])))

row_text-cells : (e : Edge) → row_text e ≡ (bar ∷ cells_text e) ++ bar ∷ []
row_text-cells e = simp append_assoc

rstrip_row : (e : Edge) → rstrip (row_text e) ≡ (bar ∷ cells_text e) ++ bar ∷ []
rstrip_row e =
    ap rstrip (row_text-cells e) ∙ rstrip_solid (bar ∷ cells_text e) bar (unfold is_space in refl)

after_bar_row : (e : Edge) → after_bar (rstrip (row_text e)) ≡ some (cells_text e)
after_bar_row e = ap after_bar (rstrip_row e) ∙ before_bar_last (cells_text e)

all-append_last :
    (p : ℕ → Bool) (t : Text) (c : ℕ) → all p t ≡ true → p c ≡ true → all p (t ++ c ∷ []) ≡ true
all-append_last p [] c h k = ground (arith, k)
all-append_last p (d ∷ t) c h k = ground (arith, all-append_last p t c, k)

split-pad :
    (t s : Text)
    → all (λ c. not (c == bar)) t ≡ true
    → split bar (pad t ++ bar ∷ s) ≡ pad t ∷ split bar s
split-pad t s h = split-cell bar (pad t) s (all-append_last (λ c. not (c == bar)) t b' ' h refl)

-- What a row that can be written needs of its cells, one by one.
record CellFacts (t : Text) : Type 0 where
  trimmed : strip t ≡ t
  unbarred : all (λ c. not (c == bar)) t ≡ true

is_cell-CellFacts : (t : Text) → is_cell t ≡ true → CellFacts t
is_cell-CellFacts t h = record {
  trimmed = (text_eq_iff (strip t) t).0 (ground (arith, h));
  unbarred = ground (arith, h);
}

strip-pad : (t : Text) → CellFacts t → strip (pad t) ≡ t
strip-pad t f = strip_padded t ∙ f.trimmed

map-split-pad :
    (t s : Text)
    → CellFacts t
    → map strip (split bar (pad t ++ bar ∷ s)) ≡ t ∷ map strip (split bar s)
map-split-pad t s f =
    ap (map strip) (split-pad t s f.unbarred)
    ∙ ap (λ x. x ∷ map strip (split bar s)) (strip-pad t f)

blank_cells : (s : Text) → map strip (split bar (b' ' ∷ bar ∷ s)) ≡ [] ∷ map strip (split bar s)
unfolding split strip is_space
blank_cells s = refl

last_cell : map strip (split bar (b' ' ∷ [])) ≡ [] ∷ []
unfolding split strip is_space
last_cell = refl

map-cells_text :
    (e : Edge)
    → CellFacts e.source
    → CellFacts e.event
    → CellFacts e.target
    → map strip (split bar (cells_text e)) ≡ e.source ∷ e.event ∷ [] ∷ e.target ∷ [] ∷ []
map-cells_text e f g h =
    map-split-pad e.source _ f
    ∙ ap (◌∷◌ e.source) (map-split-pad e.event _ g)
    ∙ ap (λ cells. e.source ∷ e.event ∷ cells)
        (blank_cells _ ∙ ap (◌∷◌ []) (map-split-pad e.target _ h ∙ ap (◌∷◌ e.target) last_cell))

-- A row that was written for a transition is read back as that transition.
pub transition_of-row_text : (e : Edge) → is_row e ≡ true → transition_of (row_text e) ≡ some e
unfolding transition_of
transition_of-row_text e h =
    let no_arrow : contains (lit "-->") (row_text e) ≡ false = ground (arith, h) in
    let facts =
      map-cells_text e (is_cell-CellFacts e.source (ground (arith, h)))
        (is_cell-CellFacts e.event (ground (arith, h)))
        (is_cell-CellFacts e.target (ground (arith, h))) in
    let kept : edge_of (e.source ∷ e.event ∷ [] ∷ e.target ∷ [] ∷ []) ≡ some e =
      unfold edge_of in ground (arith, h) in
    rw no_arrow (ap edge_in (after_bar_row e) ∙ ap edge_of facts ∙ kept)
