-- ===== src/Llm/Classification/Names.antt =====
-- The names of the fields that the model asks for.
use orca_validator.Prelude.{
  ℕ, zero, suc, ◌≤◌, ◌<◌, ◌≡◌, Bool, false, List, [], ◌∷◌, inl, inr, arith, Text, Dict, put, strip,
  take, length, is_empty, text_eq, All, Bool-cases, Result, ok, err, Result-cases,
}
use orca_validator.Ocr.Extract.{Extraction}
use orca_validator.Llm.Chat.{Together, ChatSettings, chat}
use orca_validator.Llm.Classification.{
  FieldAnswer, Parsed, field_name, collect_fields, read_content, not_json, malformed, answered,
  classify_request, classify_and_check_fields,
}

-- A name that the result page shows: not empty, and of at most 64 characters.
abbrev pub IsShort : Text × Bool → Type 0
IsShort f = (0 < length f.0) × (length f.0 ≤ 64)

length-take_le : (n : ℕ) (t : Text) → length (take n t) ≤ n
length-take_le zero t = omega arith
length-take_le (suc n) [] = omega arith
length-take_le (suc n) (c ∷ t) = omega (arith, length-take_le n t)

filled-length : (t : Text) → is_empty t ≡ false → 0 < length t
filled-length [] h = ground (arith, h)
filled-length (c ∷ t) h = omega arith

put-IsShort :
    (k : Text) (b : Bool) (d : Dict Bool) → IsShort (k, b) → All IsShort d → All IsShort (put k b d)
unfolding put
put-IsShort k b [] h hs = (h, tt)
put-IsShort k b ((j, c) ∷ d) h hs = elim (Bool-cases (text_eq j k)) [
  | inl e ↦ rw e (hs.0, hs.1)
  | inr e ↦ rw e (hs.0, put-IsShort k b d h hs.1)
]

collect_fields-IsShort :
    (fs : List FieldAnswer) (d : Dict Bool) → All IsShort d → All IsShort (collect_fields fs d)
unfolding collect_fields
collect_fields-IsShort [] d hs = hs
collect_fields-IsShort (f ∷ fs) d hs = elim (Bool-cases (is_empty (field_name f))) [
  | inl e ↦ rw e (collect_fields-IsShort fs d hs)
  | inr e ↦ rw e (
      collect_fields-IsShort fs (put (field_name f) f.present d) (
        put-IsShort (field_name f) f.present d
          (filled-length (field_name f) e, length-take_le 64 (strip f.name)) hs))
]

-- The fields of a call that returns; a call that raises gives none.
abbrev pub AreShort : Result Extraction → Type 0
AreShort (ok ext) = All IsShort ext.fields
AreShort (err e) = Unit

read_content-AreShort : (p : Parsed) → AreShort (read_content p)
unfolding read_content
read_content-AreShort not_json = tt
read_content-AreShort (malformed e) = tt
read_content-AreShort (answered a) = collect_fields-IsShort a.required_fields [] tt

module _ (ai : Together) (settings : ChatSettings) (parse : Text → Parsed) where
  -- Whatever the model answers, each field that a call returns has a name that is not empty and has
  -- at most 64 characters.
  pub classify_and_check_fields-AreShort :
      (text : Text) (temperature : ai.F) (o : ai.redis.Outside)
      → AreShort (classify_and_check_fields ai settings parse text temperature o).0
  unfolding classify_and_check_fields
  classify_and_check_fields-AreShort text temperature o =
      elim (Result-cases (chat ai settings (classify_request ai text temperature) o).0) [
        | inl (content, e) ↦ rw e (read_content-AreShort (parse content))
        | inr (f, e) ↦ rw e tt
      ]
