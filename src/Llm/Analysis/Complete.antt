-- ===== src/Llm/Analysis/Complete.antt =====
-- What the rest of the program can count on in an analysis.
use mathlib.Core.Path.{subst}
use orca_validator.Prelude.{
  ◌≡◌, refl, sym, ap, ◌∙◌, Bool, true, false, ◌||◌, List, [], ◌∷◌, Option, none, some, arith, Text,
  lit, Dict, get, has_key, get-put, any, text_eq, text_eq_iff, text_eq_refl, ok, Bool-cases,
  Option-cases, inl, inr,
}
use orca_validator.Llm.Analysis.{Json, object, set_default, list_keys, set_lists, read_analysis}

abbrev pub or_else : {A : Type 0} → Option A → Option A → Option A
or_else none b = b
or_else (some a) b = some a

module _ (json : Json) where
  get-has_key : (k : Text) (d : Dict json.Value) → get k d ≡ none → has_key k d ≡ false
  unfolding get has_key
  get-has_key k [] h = refl
  get-has_key k ((j, v) ∷ d) h = ground (arith, h, get-has_key k d)

  has_key_present :
      (k : Text) (d : Dict json.Value) (w : json.Value) → get k d ≡ some w → has_key k d ≡ true
  unfolding get has_key
  has_key_present k [] w h = cc
  has_key_present k ((j, v) ∷ d) w h = ground (arith, h, has_key_present k d w)

  -- A value where it is wanted.
  abbrev pub value_if : Bool → json.Value → Option json.Value
  value_if true v = some v
  value_if false v = none

  or_else-none : (o : Option json.Value) → or_else o none ≡ o
  or_else-none none = refl
  or_else-none (some a) = refl

  set_default_same :
      (k : Text) (v : json.Value) (d : Dict json.Value)
      → get k (set_default json k v d) ≡ or_else (get k d) (value_if (text_eq k k) v)
  set_default_same k v d = elim (Option-cases (get k d)) [
    | inl e ↦ ground (arith, e, get-has_key k d, get-put k k v d, text_eq_refl k)
    | inr (w, e) ↦ ground (arith, e, has_key_present k d w e)
  ]

  get-set_default :
      (k j : Text) (v : json.Value) (d : Dict json.Value)
      → get j (set_default json k v d) ≡ or_else (get j d) (value_if (text_eq k j) v)
  get-set_default k j v d = elim (Bool-cases (text_eq k j)) [
    | inl e ↦
        subst (λ i. get i (set_default json k v d) ≡ or_else (get i d) (value_if (text_eq k i) v))
          ((text_eq_iff k j).0 e) (set_default_same k v d)
    | inr e ↦ ground (arith, get-put k j v d, e, or_else-none (get j d))
  ]

  get-set_lists :
      (ks : List Text) (j : Text) (d : Dict json.Value)
      → get j (set_lists json ks d)
        ≡ or_else (get j d) (value_if (any (λ k. text_eq k j) ks) json.empty_list)
  unfolding set_lists
  get-set_lists [] j d = sym (or_else-none (get j d))
  get-set_lists (k ∷ ks) j d =
      get-set_lists ks j (set_default json k json.empty_list d)
      ∙ ap (λ o. or_else o (value_if (any (λ k. text_eq k j) ks) json.empty_list))
          (get-set_default k j json.empty_list d)
      ∙ joined (get j d) (text_eq k j) (any (λ k. text_eq k j) ks)
    where
      joined :
          (o : Option json.Value) (b c : Bool)
          → or_else (or_else o (value_if b json.empty_list)) (value_if c json.empty_list)
            ≡ or_else o (value_if (b || c) json.empty_list)
      joined none true c = refl
      joined none false c = refl
      joined (some v) b c = refl

  or_else_assoc : (a b c : Option json.Value) → or_else (or_else a b) c ≡ or_else a (or_else b c)
  or_else_assoc none b c = refl
  or_else_assoc (some v) b c = refl

  -- An object that the model answers with becomes an analysis in which every key has the model's
  -- value where the model gave one, the lists that the page and the revision read are empty lists
  -- where it gave none, the aims are then the empty text, and no other key is there.
  pub get-read_analysis :
      (content : Text) (fields : Dict json.Value)
      → (a : Dict json.Value) × (read_analysis json content (object fields) ≡ ok a)
        × ((key : Text)
            → get key a
              ≡ or_else (get key fields) (
                  or_else
                    (value_if (any (λ k. text_eq k key) (list_keys json)) json.empty_list)
                    (value_if (text_eq (lit "aims") key) (json.str []))))
  unfolding read_analysis
  get-read_analysis content fields = (
    _,
    refl,
    λ key.
        get-set_default (lit "aims") key (json.str []) (set_lists json (list_keys json) fields)
        ∙ ap (λ o. or_else o (value_if (text_eq (lit "aims") key) (json.str [])))
            (get-set_lists (list_keys json) key fields)
        ∙ or_else_assoc (get key fields) _ _,
  )
