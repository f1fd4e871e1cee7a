-- ===== src/Api/Machines/Listed.antt =====
-- The machines that are listed are those that can be fetched.
use orca_validator.Prelude.{
  ◌≡◌, refl, sym, ap, ◌∙◌, Bool, true, false, ◌&&◌, ◌||◌, [], ◌∷◌, ◌++◌, map, arith, Text, Dict,
  has_key, text_eq, text_eq_iff, text_eq_refl, length, length-append, ◌<◌, ◌==◌, Bool-cases, inl,
  inr, any, all,
}
use orca_validator.Api.Http.{Response, reply, refused}
use orca_validator.Api.Machines.{
  extension, stem, place_item, sorted_items, MachineSummary, MachineView, summary_of, list_machines,
  Compiler, get_machine,
}

-- The name of a file of the machines' directory: `*.orca.md`.
abbrev pub is_machine_file : Text × Text → Bool
is_machine_file (name, hash) = text_eq (stem name ++ extension) name

abbrev pub is_found : Response MachineView → Bool
is_found (reply m) = true
is_found (refused code) = false

abbrev pub is_listed : Text → MachineSummary → Bool
is_listed machine_id m = text_eq m.machine_id machine_id

-- An entry whose machine has the id.
abbrev pub has_id : Text → Text × Text → Bool
has_id machine_id p = text_eq (stem p.0) machine_id

any-place_item :
    (q : Text × Text → Bool) (p : Text × Text) (items : Dict Text)
    → any q (place_item p items) ≡ any q (p ∷ items)
any-place_item q p [] = refl
any-place_item q p (r ∷ items) = ground (arith, any-place_item q p items)

any-sorted_items :
    (q : Text × Text → Bool) (items : Dict Text) → any q (sorted_items items) ≡ any q items
unfolding sorted_items
any-sorted_items q [] = refl
any-sorted_items q (p ∷ items) =
    any-place_item q p (sorted_items items) ∙ ap (λ b. q p || b) (any-sorted_items q items)

any_summary :
    (machine_id : Text) (items : Dict Text)
    → any (is_listed machine_id) (map summary_of items) ≡ any (has_id machine_id) items
unfolding summary_of
any_summary machine_id [] = refl
any_summary machine_id (p ∷ items) =
    ap (λ b. has_id machine_id p || b) (any_summary machine_id items)

text_eq_shorter : (s t : Text) → length s < length t → text_eq s t ≡ false
text_eq_shorter s [] h = absurd (omega arith)
text_eq_shorter [] (d ∷ t) h = refl
text_eq_shorter (c ∷ s) (d ∷ t) h = ground (arith, h, text_eq_shorter s t)

text_eq_longer : (s t : Text) → length t < length s → text_eq s t ≡ false
text_eq_longer [] t h = absurd (omega arith)
text_eq_longer (c ∷ s) [] h = refl
text_eq_longer (c ∷ s) (d ∷ t) h = ground (arith, h, text_eq_longer s t)

text_eq-append : (a b t : Text) → text_eq (a ++ t) (b ++ t) ≡ text_eq a b
text_eq-append [] [] t = text_eq_refl t
text_eq-append [] (c ∷ b) t =
    text_eq_shorter t ((c ∷ b) ++ t) (omega (arith, length-append (c ∷ b) t))
text_eq-append (c ∷ a) [] t =
    text_eq_longer ((c ∷ a) ++ t) t (omega (arith, length-append (c ∷ a) t))
text_eq-append (c ∷ a) (d ∷ b) t = ap (λ e. (c == d) && e) (text_eq-append a b t)

same_id :
    (machine_id : Text) (p : Text × Text)
    → is_machine_file p ≡ true
    → has_id machine_id p ≡ text_eq p.0 (machine_id ++ extension)
same_id machine_id (name, hash) h = sym (
    ap (λ n. text_eq n (machine_id ++ extension))
      (sym ((text_eq_iff (stem name ++ extension) name).0 h))
    ∙ text_eq-append (stem name) machine_id extension)

has_key-files :
    (machine_id : Text) (items : Dict Text)
    → all is_machine_file items ≡ true
    → any (has_id machine_id) items ≡ has_key (machine_id ++ extension) items
unfolding has_key
has_key-files machine_id [] h = refl
has_key-files machine_id (p ∷ items) h =
    ground (arith, same_id machine_id p, has_key-files machine_id items)

found_key :
    (compiler : Compiler) (verified_machines : Dict Text) (machine_id : Text)
    → is_found (get_machine compiler verified_machines machine_id)
      ≡ has_key (machine_id ++ extension) verified_machines
unfolding get_machine
found_key compiler verified_machines machine_id =
    elim (Bool-cases (has_key (machine_id ++ extension) verified_machines)) [
      | inl e ↦ rw e refl
      | inr e ↦ rw e refl
    ]

-- Where the verified names are names of machine files, a machine is listed under an id exactly where
-- the endpoint of that id answers with it.
pub get_machine-listed :
    (compiler : Compiler) (verified_machines : Dict Text) (machine_id : Text)
    → all is_machine_file verified_machines ≡ true
    → is_found (get_machine compiler verified_machines machine_id)
      ≡ any (is_listed machine_id) (list_machines verified_machines)
unfolding list_machines
get_machine-listed compiler verified_machines machine_id h =
    found_key compiler verified_machines machine_id
    ∙ sym (has_key-files machine_id verified_machines h)
    ∙ sym (any-sorted_items (has_id machine_id) verified_machines)
    ∙ sym (any_summary machine_id (sorted_items verified_machines))
