-- ===== src/Tests/Visits.antt =====
-- The theorem of the page of visits, with an order that sorts by the time.
use orca_validator.Prelude.{List, ℕ, Bool, [], ◌∷◌, none, lit, ltb, if◌then◌else◌}
use orca_validator.Api.Visits.{Visit}

-- Two visits, one of them to a page of the application.
abbrev two_visits : List (Visit ℕ)
two_visits =
    record { ip = lit "1"; path = lit "/tos"; user_agent = none; hit_at = 2 }
    ∷ record { ip = lit "1"; path = lit "/.env"; user_agent = none; hit_at = 1 }
    ∷ []

-- The newest first, the times being numbers.
abbrev later : ℕ → ℕ → Bool
later a b = ltb b a

abbrev insert : Visit ℕ → List (Visit ℕ) → List (Visit ℕ)
insert v [] = v ∷ []
insert v (u ∷ us) = if ltb v.hit_at u.hit_at then u ∷ insert v us else v ∷ u ∷ us

abbrev newest_first : List (Visit ℕ) → List (Visit ℕ)
newest_first [] = []
newest_first (v ∷ vs) = insert v (newest_first vs)
