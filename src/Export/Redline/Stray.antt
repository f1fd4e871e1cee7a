-- ===== src/Export/Redline/Stray.antt =====
-- What stripping the unbalanced markers leaves.
use orca_validator.Prelude.{◌≡◌, ◌≢◌, ap, ◌∙◌, [], ◌∷◌, ◌++◌, some, arith, Text, lit, All}
use orca_validator.Export.Redline.{drop_deleted, keep_inserted, strip_stray, clean_revision}
use orca_validator.Export.Redline.Resolve.{
  HasNoBrace, resolved_unclosed, strip_stray-HasNoBrace, clean_revision-stages,
}

HasNoBrace-unclosed : (t : Text) → HasNoBrace t → All (λ c. c ≢ b'}') t
HasNoBrace-unclosed [] h = tt
HasNoBrace-unclosed (c ∷ t) h = (h.0.1, HasNoBrace-unclosed t h.1)

drop_deleted_unclosed : (s : Text) → All (λ c. c ≢ b'}') s → drop_deleted s ≡ s
unfolding drop_deleted
drop_deleted_unclosed s h = resolved_unclosed b'-' (λ _. []) (omega arith) s h

keep_inserted_unclosed : (s : Text) → All (λ c. c ≢ b'}') s → keep_inserted s ≡ s
unfolding keep_inserted
keep_inserted_unclosed s h = resolved_unclosed b'+' (λ b. b) (omega arith) s h

-- Stripping a stray marker can put another one together: `{{----` in front of any text without
-- braces is cleaned to `{--`, an opening marker, in front of that text.
pub clean_revision_leaves_marker :
    (t : Text) → HasNoBrace t → clean_revision (some (lit "{{----" ++ t)) ≡ lit "{--" ++ t
unfolding strip_stray
clean_revision_leaves_marker t h =
    let rest = HasNoBrace-unclosed t h in
    let unclosed : All (λ c. c ≢ b'}') (lit "{{----" ++ t) = (
      omega arith,
      (omega arith, (omega arith, (omega arith, (omega arith, (omega arith, rest))))),
    ) in
    clean_revision-stages (lit "{{----" ++ t)
    ∙ ap (λ d. strip_stray (keep_inserted d)) (drop_deleted_unclosed (lit "{{----" ++ t) unclosed)
    ∙ ap strip_stray (keep_inserted_unclosed (lit "{{----" ++ t) unclosed)
    ∙ ap (◌∷◌ b'{') (strip_stray-HasNoBrace (lit "--" ++ t) (omega arith, (omega arith, h)))
