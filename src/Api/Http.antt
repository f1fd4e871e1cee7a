-- ===== src/Api/Http.antt =====
-- HTTP errors, and backend/deps.py.
use orca_validator.Prelude.{
  ℕ, Bool, ◌++◌, Option, none, some, Text, lit, is_empty, text_eq, ◌&&◌, true, false, all, ltb,
  if◌then◌else◌,
}

-- A handler's answer, or an HTTPException with its status code.
pub data Response {ℓ} (A : Type ℓ) : Type ℓ where
  reply : A → Response A
  refused : ℕ → Response A

-- `s.isascii()`
unfoldable pub is_ascii : Text → Bool
is_ascii t = all (λ c. ltb c 128) t

-- `secrets.compare_digest` of two strings: a TypeError unless both are ASCII.
unfoldable pub compare_digest : Text → Text → Option Bool
compare_digest a b = if is_ascii a && is_ascii b then some (text_eq a b) else none

-- What the dependency answers once the digests are compared; its TypeError becomes a 500.
abbrev pub subject_or_refuse : Option Bool → Response Text
subject_or_refuse none = refused 500
subject_or_refuse (some true) = reply (lit "api-key-subject")
subject_or_refuse (some false) = refused 401

-- `require_api_key`: the subject of the caller
unfoldable pub require_api_key : Text → Text → Response Text
require_api_key api_key authorization =
    if is_empty authorization
    then refused 401
    else subject_or_refuse (compare_digest authorization (lit "Bearer " ++ api_key))
