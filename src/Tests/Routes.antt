-- ===== src/Tests/Routes.antt =====
-- The theorem of the routes, at two states that hold different documents.
use orca_validator.Prelude.{ℕ, ◌≡◌, refl, false, true, [], Text, lit, ltb, ok}
use orca_validator.Api.Machines.{Compiler}
use orca_validator.App.Routes.{result_of, Backend, handle}
use orca_validator.App.Routes.Unauthorized.{handle-unauthorized}
use orca_validator.Tests.Service.{numbers, settings, empty_service, one_run}

abbrev compiler : Compiler
compiler = record { exists = λ path. false; compile = λ path. ok (true, []) }

abbrev empty_backend : Backend ℕ ℕ Text
empty_backend = record { service = empty_service; visits = [] }

abbrev filled_backend : Backend ℕ ℕ Text
filled_backend = record { service = one_run; visits = [] }

handle-unauthorized_example :
    ((handle numbers ℕ Text ltb
        (λ vs. vs)
        compiler
        settings
        (lit "Bearer x")
        (result_of (lit "d1"))
        filled_backend
        filled_backend).0
      ≡ (handle numbers ℕ Text ltb
          (λ vs. vs)
          compiler
          settings
          (lit "Bearer x")
          (result_of (lit "d1"))
          empty_backend
          empty_backend).0)
    × ((handle numbers ℕ Text ltb
          (λ vs. vs)
          compiler
          settings
          (lit "Bearer x")
          (result_of (lit "d1"))
          filled_backend
          filled_backend).1
        ≡ filled_backend)
handle-unauthorized_example =
    handle-unauthorized numbers ℕ Text ltb (λ vs. vs) compiler settings (lit "Bearer x")
      (result_of (lit "d1")) filled_backend filled_backend empty_backend empty_backend refl refl
