-- ===== src/Export/Redline/Accepted.antt =====
-- A well-formed redline, as the revision prompt asks for it, and the document that accepts it.
use orca_validator.Prelude.{◌≡◌, refl, ap, ◌∙◌, List, [], ◌∷◌, ◌++◌, some, arith, Text, lit, All}
use orca_validator.Export.Redline.{
  drop_deleted, keep_inserted, strip_stray, clean_revision, enclosed,
}
use orca_validator.Export.Redline.Resolve.{
  HasNoBrace, HasNoBrace-append, resolved-HasNoBrace, resolved_marked, strip_stray-HasNoBrace,
  clean_revision-stages,
}

pub data Segment : Type 0 where
  plain deleted inserted : Text → Segment

abbrev pub body : Segment → Text
body (plain t) = t
body (deleted t) = t
body (inserted t) = t

-- The redline that the segments stand for.
abbrev pub render : List Segment → Text
render [] = []
render (plain t ∷ ss) = t ++ render ss
render (deleted t ∷ ss) = lit "{--" ++ (t ++ (lit "--}" ++ render ss))
render (inserted t ∷ ss) = lit "{++" ++ (t ++ (lit "++}" ++ render ss))

-- The document with every deletion dropped and every insertion kept.
abbrev pub accepted : List Segment → Text
accepted [] = []
accepted (plain t ∷ ss) = t ++ accepted ss
accepted (deleted t ∷ ss) = accepted ss
accepted (inserted t ∷ ss) = t ++ accepted ss

-- The redline with its insertions still marked.
abbrev undeleted : List Segment → Text
undeleted [] = []
undeleted (plain t ∷ ss) = t ++ undeleted ss
undeleted (deleted t ∷ ss) = undeleted ss
undeleted (inserted t ∷ ss) = lit "{++" ++ (t ++ (lit "++}" ++ undeleted ss))

abbrev IsQuiet : List Segment → Type 0
IsQuiet ss = All (λ g. HasNoBrace (body g)) ss

drop_deleted-render : (ss : List Segment) → IsQuiet ss → drop_deleted (render ss) ≡ undeleted ss
unfolding drop_deleted enclosed
drop_deleted-render [] h = refl
drop_deleted-render (plain t ∷ ss) h =
    resolved-HasNoBrace b'-' (λ _. []) (omega arith) t (render ss) h.0
    ∙ ap (◌++◌ t) (drop_deleted-render ss h.1)
drop_deleted-render (deleted t ∷ ss) h =
    resolved_marked b'-' (λ _. []) (omega arith) t (render ss) h.0 ∙ drop_deleted-render ss h.1
drop_deleted-render (inserted t ∷ ss) h =
    ap (λ r. lit "{++" ++ r)
      (resolved-HasNoBrace b'-' (λ _. []) (omega arith) t (lit "++}" ++ render ss) h.0
        ∙ ap (λ r. t ++ (lit "++}" ++ r)) (drop_deleted-render ss h.1))

keep_inserted-undeleted :
    (ss : List Segment) → IsQuiet ss → keep_inserted (undeleted ss) ≡ accepted ss
unfolding keep_inserted
keep_inserted-undeleted [] h = refl
keep_inserted-undeleted (plain t ∷ ss) h =
    resolved-HasNoBrace b'+' (λ b. b) (omega arith) t (undeleted ss) h.0
    ∙ ap (◌++◌ t) (keep_inserted-undeleted ss h.1)
keep_inserted-undeleted (deleted t ∷ ss) h = keep_inserted-undeleted ss h.1
keep_inserted-undeleted (inserted t ∷ ss) h =
    resolved_marked b'+' (λ b. b) (omega arith) t (undeleted ss) h.0
    ∙ ap (◌++◌ t) (keep_inserted-undeleted ss h.1)

HasNoBrace-accepted : (ss : List Segment) → IsQuiet ss → HasNoBrace (accepted ss)
HasNoBrace-accepted [] h = tt
HasNoBrace-accepted (plain t ∷ ss) h =
    HasNoBrace-append t (accepted ss) h.0 (HasNoBrace-accepted ss h.1)
HasNoBrace-accepted (deleted t ∷ ss) h = HasNoBrace-accepted ss h.1
HasNoBrace-accepted (inserted t ∷ ss) h =
    HasNoBrace-append t (accepted ss) h.0 (HasNoBrace-accepted ss h.1)

-- A redline made of plain, deleted and inserted parts, none of which holds a brace, is cleaned to
-- exactly its accepted version: deletions dropped, insertions kept, plain text untouched.
pub clean_revision-render :
    (ss : List Segment)
    → All (λ g. HasNoBrace (body g)) ss
    → clean_revision (some (render ss)) ≡ accepted ss
clean_revision-render ss h =
    clean_revision-stages (render ss)
    ∙ ap (λ d. strip_stray (keep_inserted d)) (drop_deleted-render ss h)
    ∙ ap strip_stray (keep_inserted-undeleted ss h)
    ∙ strip_stray-HasNoBrace (accepted ss) (HasNoBrace-accepted ss h)
