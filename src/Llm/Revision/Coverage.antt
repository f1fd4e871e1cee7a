-- ===== src/Llm/Revision/Coverage.antt =====
-- The redline covers the whole document.
use orca_validator.Prelude.{
  visible, visible-strip, ℕ, zero, suc, ◌≤◌, ◌≡◌, refl, sym, ap, ◌∙◌, false, not, List, [], ◌∷◌,
  ◌++◌, append-nil, some, arith, Text, lit, is_empty, join, map, take, length, ltb, keep,
  keep-append, is_space, ok,
}
use orca_validator.Llm.Chunks.{split_into_chunks, chunk_chars, max_chunks}
use orca_validator.Llm.Chunks.Content.{concat, visible-split_into_chunks}
use orca_validator.Llm.Chat.{Together, ChatSettings}
use orca_validator.Llm.Revision.{
  given, chunks_of, assemble, with_additions, revise_chunk, revise_chunks, draft_additions,
  draft_items, revise_all, revise_contract,
}

visible-join :
    (sep : Text) (parts : List Text)
    → visible sep ≡ []
    → visible (join sep parts) ≡ visible (concat parts)
unfolding join
visible-join sep [] h = refl
visible-join sep (p ∷ []) h = sym (ap visible (append-nil p))
visible-join sep (p ∷ q ∷ rest) h =
    keep-append _ p (sep ++ join sep (q ∷ rest))
    ∙ ap (◌++◌ (visible p)) (
        keep-append _ sep (join sep (q ∷ rest))
        ∙ ap (λ v. v ++ visible (join sep (q ∷ rest))) h
        ∙ visible-join sep (q ∷ rest) h)
    ∙ sym (keep-append _ p (concat (q ∷ rest)))

concat-keep : (parts : List Text) → concat (keep (λ p. not (is_empty p)) parts) ≡ concat parts
concat-keep [] = refl
concat-keep ([] ∷ parts) = concat-keep parts
concat-keep ((c ∷ p) ∷ parts) = ap (λ r. (c ∷ p) ++ r) (concat-keep parts)

take_all : (n : ℕ) (xs : List Text) → length xs ≤ n → take n xs ≡ xs
take_all zero [] h = refl
take_all zero (x ∷ xs) h = absurd (omega (arith, h))
take_all (suc n) [] h = refl
take_all (suc n) (x ∷ xs) h = ap (◌∷◌ x) (take_all n xs (omega (arith, h)))

visible-assemble :
    (parts : List Text)
    → visible (with_additions (assemble parts false) []) ≡ visible (concat parts)
unfolding with_additions assemble
visible-assemble parts =
    visible-strip (join (lit "\n\n") (keep (λ p. not (is_empty p)) parts))
    ∙ visible-join (lit "\n\n") (keep (λ p. not (is_empty p)) parts) (unfold is_space in refl)
    ∙ ap visible (concat-keep parts)

chunks_of_split :
    (text : Text) (cs : List Text)
    → split_into_chunks text chunk_chars ≡ some cs
    → chunks_of text ≡ cs
unfolding chunks_of
chunks_of_split text cs h = ap given h

-- A model whose answers keep what is to be seen of a chunk, up to white space: it marks nothing.
module _ (ai : Together) (settings : ChatSettings) (temperature : ai.F) (answer : Text → Text)
    (after : Text → ai.redis.Outside → ai.redis.Outside)
    (keeps : (chunk : Text) → visible (answer chunk) ≡ visible chunk)
    (answers : (chunk : Text) (o : ai.redis.Outside)
      → revise_chunk ai settings chunk temperature o ≡ (ok (answer chunk), after chunk o)) where
  after_all : List Text → ai.redis.Outside → ai.redis.Outside
  after_all [] o = o
  after_all (c ∷ cs) o = after_all cs (after c o)

  revise_chunks_answers :
      (chunks : List Text) (o : ai.redis.Outside)
      → revise_chunks ai settings chunks temperature o
        ≡ (ok (map answer chunks), after_all chunks o)
  unfolding revise_chunks after_all
  revise_chunks_answers [] o = refl
  revise_chunks_answers (c ∷ cs) o =
      rw (answers c o) (rw (revise_chunks_answers cs (after c o)) refl)

  visible_answers :
      (chunks : List Text) → visible (concat (map answer chunks)) ≡ visible (concat chunks)
  visible_answers [] = refl
  visible_answers (c ∷ cs) =
      keep-append _ (answer c) (concat (map answer cs))
      ∙ ap (λ v. v ++ visible (concat (map answer cs))) (keeps c)
      ∙ ap (◌++◌ (visible c)) (visible_answers cs)
      ∙ sym (keep-append _ c (concat cs))

  revise_all_answers :
      (cs : List Text) (o : ai.redis.Outside)
      → length cs ≤ max_chunks
      → revise_all ai settings cs (ok []) temperature o
        ≡ (ok (with_additions (assemble (map answer cs) false) []), after_all cs o)
  unfolding revise_all draft_additions draft_items
  revise_all_answers cs o few =
      let short : ltb max_chunks (length cs) ≡ false = ground (arith, few) in
      rw (take_all max_chunks cs few) (rw (revise_chunks_answers cs o) (rw short refl))

  -- Where a document has at most twelve chunks, its analysis lists no clause, and the model answers
  -- each chunk with a text that shows the same characters, the revision returns a redline that
  -- shows the same characters as the document, in the same order, up to white space.
  pub visible-revise_contract :
      (text : Text) (cs : List Text) (o : ai.redis.Outside)
      → split_into_chunks text chunk_chars ≡ some cs
      → length cs ≤ max_chunks
      → (redline : Text) × ((revise_contract ai settings text (ok []) temperature o).0 ≡ ok redline)
        × (visible redline ≡ visible text)
  unfolding revise_contract
  visible-revise_contract text cs o splits few =
      let shown =
        visible-assemble (map answer cs)
        ∙ visible_answers cs
        ∙ visible-split_into_chunks text chunk_chars cs splits in
      (
        with_additions (assemble (map answer cs) false) [],
        rw (chunks_of_split text cs splits) (ap (λ r. r.0) (revise_all_answers cs o few)),
        shown,
      )
