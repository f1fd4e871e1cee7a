-- ===== src/App/Database.antt =====
-- backend/app/database.py: the address that the engine is given.
use orca_validator.Prelude.{
  ◌≡◌, refl, ◌++◌, Text, lit, drop, length, starts_with, if◌then◌else◌, Bool-cases, inl, inr,
}

-- `_asyncpg_url`: the one occurrence that is replaced is the one at the start
unfoldable pub asyncpg_url : Text → Text
asyncpg_url url =
    if starts_with url (lit "postgresql://")
    then lit "postgresql+asyncpg://" ++ drop (length (lit "postgresql://")) url
    else url

-- The address that env.py and the engine make of an address is left as it is.
pub asyncpg_url_idem : (url : Text) → asyncpg_url (asyncpg_url url) ≡ asyncpg_url url
unfolding asyncpg_url
asyncpg_url_idem url = elim (Bool-cases (starts_with url (lit "postgresql://"))) [
  | inl e ↦ rw e refl
  | inr e ↦ rw e (rw e refl)
]
