-- ===== src/App/Health.antt =====
-- backend/api/health.py: the probe of the two services.
use orca_validator.Prelude.{
  ◌≡◌, refl, ◌++◌, [], ◌∷◌, Text, lit, Dict, message, Result, ok, err, Exec, ◌>>=◌, inl, inr,
  Result-cases,
}

pub record HealthResponse : Type 0 where
  pub status : Text
  pub checks : Dict Text

-- The value of the key `redis`.
abbrev pub redis_check : Result (Unit {0}) → Text
redis_check (ok x) = lit "ok"
redis_check (err e) = lit "unavailable: " ++ message e

-- `health`: the query `SELECT 1`, and the ping of Redis, each of which may raise
module _ {Outside : Type 0} (select ping : Exec Outside (Unit {0})) where
  -- The exception of the ping does not leave the handler.
  abbrev pub checked : Exec Outside HealthResponse
  checked o =
      let (r, o') = ping o in
      (
        ok (record {
          status = lit "ok";
          checks = (lit "postgres", lit "ok") ∷ (lit "redis", redis_check r) ∷ [];
        }),
        o',
      )

  unfoldable pub health : Exec Outside HealthResponse
  health = do x ← select; checked

  -- The probe answers whenever the database does, also where Redis does not, and it raises what the
  -- query raises.
  pub health_lem :
      (o : Outside)
      → (health o).0 ≡ (elim ((select o).0) [
        | ok x ↦ ok (record {
          status = lit "ok";
          checks =
              (lit "postgres", lit "ok") ∷ (lit "redis", redis_check (ping (select o).1).0) ∷ [];
        })
        | err e ↦ err e
      ])
  unfolding health
  health_lem o = elim (Result-cases (select o).0) [
    | inl (x, e) ↦ rw e refl
    | inr (f, e) ↦ rw e refl
  ]
