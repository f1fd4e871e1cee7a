-- ===== src/Tests/Parts.antt =====
-- The theorems of the redline, the chunks, the extractor, the snapshots and the boot gate.
use orca_validator.Prelude.{
  visible, ok, put, ◌+◌, ◌*◌, ◌≤◌, ◌<◌, ◌≡◌, ◌≢◌, refl, true, not, ◌&&◌, List, [], ◌∷◌, some, none,
  Text, lit, get, length, All, all, is_empty, strip, is_space, rfind, arith, if◌then◌else◌,
}
use orca_validator.Export.Redline.{clean_revision}
use orca_validator.Export.Redline.Accepted.{
  Segment, plain, deleted, inserted, render, accepted, clean_revision-render,
}
use orca_validator.Export.Redline.Stray.{clean_revision_leaves_marker}
use orca_validator.Llm.Chunks.{split_into_chunks}
use orca_validator.Llm.Chunks.Bounds.{split_into_chunks-Chunked}
use orca_validator.Llm.Chunks.Content.{concat, visible-split_into_chunks}
use orca_validator.Orca.Context.{str, list}
use orca_validator.Orca.Actions.{record_error}
use orca_validator.Orca.Machine.{validating, received, error, timeout, run_action, Machine}
use orca_validator.Orca.Bridge.{Bridge, run_key, get_or_create, send}
use orca_validator.Orca.Bridge.Steps.{Registered}
use orca_validator.Orca.Bridge.Restart.{restarted, send_restarted}
use orca_validator.Orca.Gate.{exited, Machines, lifespan}
use orca_validator.Orca.Gate.Boot.{is_created, passes, hashes, lifespan_lem}
use orca_validator.Tests.Interpreter.{interpret, interpreter}

abbrev redline : List Segment
redline = plain (lit "in ") ∷ deleted (lit "10") ∷ inserted (lit "12") ∷ []

clean_revision-render_example : clean_revision (some (render redline)) ≡ accepted redline
clean_revision-render_example = clean_revision-render redline (omega arith)

clean_revision_leaves_marker_example : clean_revision (some (lit "{{----x")) ≡ lit "{--x"
clean_revision_leaves_marker_example = clean_revision_leaves_marker (lit "x") (omega arith)

abbrev clause_text : Text
clause_text = lit "one two\n\nthree"

clause_text_filled : strip clause_text ≢ []
unfolding strip is_space
clause_text_filled = λ e. ground (arith, e)

split_into_chunks-Chunked_example :
    (cs : List Text) × (split_into_chunks clause_text 8 ≡ some cs)
    × All (λ c. (0 < length c) × (length c ≤ 8)) cs
    × (8 * length cs ≤ 2 * length clause_text + 8)
split_into_chunks-Chunked_example =
    split_into_chunks-Chunked clause_text 8 (omega arith) clause_text_filled

clause_text_split : split_into_chunks clause_text 8 ≡ some (lit "one two" ∷ lit "three" ∷ [])
unfolding split_into_chunks strip is_space rfind
clause_text_split = refl

visible-split_into_chunks_example :
    visible (concat (lit "one two" ∷ lit "three" ∷ [])) ≡ visible clause_text
visible-split_into_chunks_example =
    visible-split_into_chunks clause_text 8 (lit "one two" ∷ lit "three" ∷ []) clause_text_split

abbrev moved : Machine
moved = record { state = validating; context = [] }

-- A verifier that passes every file, and a hash that is the file's name.
abbrev passing : Machines
passing = record { run_verifier = λ f. exited true (lit "VERIFIED\n"); sha256_prefix = λ f. f }

lifespan_lem_example : lifespan passing (lit "contract_validation.orca.md" ∷ []) (ok tt) ≡ (
    if not (is_empty (lit "contract_validation.orca.md" ∷ []))
      && (all (passes passing) (lit "contract_validation.orca.md" ∷ []) && is_created (ok tt))
    then some (hashes passing (lit "contract_validation.orca.md" ∷ []) [])
    else none)
lifespan_lem_example = lifespan_lem passing (lit "contract_validation.orca.md" ∷ []) (ok tt)

-- The machine that a timeout leaves.
abbrev stopped : Machine
stopped = record {
  state = error;
  context =
      (lit "verdict", str (lit "error"))
      ∷ (lit "reasons", list (some (lit "extraction or processing failed") ∷ []))
      ∷ [];
}

-- A machine that has received its document, and the bridge that holds it.
abbrev waiting : Machine
waiting = record { state = received; context = [] }

abbrev bridge : Bridge interpreter
bridge = record { machines = (lit "contract:1", waiting) ∷ []; table = [] }

waiting-Registered :
    Registered interpreter (run_key interpreter (lit "contract") (lit "1")) waiting bridge
unfolding get run_key
waiting-Registered = refl

timed_out : interpreter.send waiting timeout [] ≡ ok (stopped, true)
unfolding interpret run_action record_error get put
timed_out = refl

send_restarted_example :
    (m'' : Machine) × ((get_or_create interpreter (lit "contract") (lit "1") [] (
        restarted interpreter
          (send interpreter (lit "contract") (lit "1") timeout [] bridge).1.table)).0
      ≡ ok m'')
    × (m''.state ≡ error)
send_restarted_example =
    send_restarted interpreter (lit "1") timeout [] waiting stopped bridge waiting-Registered
      timed_out
