-- ===== src/Api/Machines.antt =====
-- backend/api/machines.py and backend/orca/diagram.py: the verified machines.
pub mod Listed
use orca_validator.Prelude.{
  Bool, true, false, not, ◌&&◌, ◌||◌, List, [], ◌∷◌, ◌++◌, Option, none, some, map, if◌then◌else◌,
  Text, lit, Dict, get, has_key, text_eq, is_empty, strip, comes_first, Result, ok, err,
}
use orca_validator.Api.Http.{Response, reply, refused}
use orca_validator.Api.Documents.{machine_ids}

-- `".orca.md"`
abbrev pub extension : Text
extension = lit ".orca.md"

-- `_stem`
unfoldable pub stem : Text → Text
stem [] = []
stem (c ∷ s) = let rest = stem s in if text_eq (c ∷ s) extension then [] else c ∷ rest

abbrev pub first_with : Text → Dict Text → Option Text
first_with machine_id [] = none
first_with machine_id ((d, m) ∷ ids) =
    let rest = first_with machine_id ids in if text_eq m machine_id then some d else rest

-- `_doc_type_for`
unfoldable pub doc_type_for : Text → Option Text
doc_type_for machine_id = first_with machine_id machine_ids

-- `sorted(d.items())`: no two items have one name, so that the hashes are not compared.
abbrev pub place_item : Text × Text → Dict Text → Dict Text
place_item p [] = p ∷ []
place_item p (q ∷ items) = if comes_first q.0 p.0 then q ∷ place_item p items else p ∷ q ∷ items

unfoldable pub sorted_items : Dict Text → Dict Text
sorted_items [] = []
sorted_items (p ∷ items) = place_item p (sorted_items items)

pub record MachineSummary : Type 0 where
  pub machine_id : Text
  pub verified : Bool
  pub hash : Option Text
  pub doc_type : Option Text

pub record MachineView : Type 0 where
  pub machine_id : Text
  pub doc_type : Option Text
  pub verified : Bool
  pub hash : Option Text
  pub mermaid : Option Text

abbrev pub summary_of : Text × Text → MachineSummary
unfolding stem doc_type_for
summary_of (name, hash) = record {
  machine_id = stem name;
  verified = true;
  hash = some hash;
  doc_type = doc_type_for (stem name);
}

-- `list_machines`
unfoldable pub list_machines : Dict Text → List MachineSummary
unfolding sorted_items summary_of
list_machines verified_machines = map summary_of (sorted_items verified_machines)

-- What `orca compile mermaid` prints, and whether it exits with 0; the run may raise.
pub record Compiler : Type 0 where
  pub exists : Text → Bool
  pub compile : Text → Result (Bool × Text)

abbrev pub printed : Result (Bool × Text) → Option Text
printed (err e) = none
printed (ok (exited_zero, out)) =
    if exited_zero && not (is_empty (strip out)) then some (strip out) else none

-- `mermaid_for`
unfoldable pub mermaid_for : Compiler → Text → Option Text
mermaid_for compiler machine_id =
    if compiler.exists machine_id then printed (compiler.compile machine_id) else none

-- `get_machine`
unfoldable pub get_machine : Compiler → Dict Text → Text → Response MachineView
unfolding mermaid_for doc_type_for
get_machine compiler verified_machines machine_id =
    if has_key (machine_id ++ extension) verified_machines
    then reply (record {
      machine_id = machine_id;
      doc_type = doc_type_for machine_id;
      verified = true;
      hash = get (machine_id ++ extension) verified_machines;
      mermaid = mermaid_for compiler machine_id;
    })
    else refused 404
