-- ===== src/Prelude/Errors.antt =====
-- Go's `error` values. `fmt.Errorf("…: %w", err)` is `wrap`, which `errors.Is` looks through; the
-- two sentinels are those of backend/internal/repository/postgres/errors.go.
use Prim.Native.String.{String, ◌++◌}
use mathlib.Core.Path.{◌≡◌, refl}
use mathlib.Core.Logic.{◌⊎◌, inl, inr}
use mathlib.Core.Bool.{Bool, true, false}
use text.Mathlib.Text.{◌==◌ as str_eq}

pub data Error : Type 0 where
  not_found already_exists : Error
  message : String → Error
  wrap : String → Error → Error
  -- A PgError: its SQLSTATE code and its text.
  pg_error : String → String → Error

-- errors.Is(err, ErrNotFound)
unfoldable pub is_not_found : Error → Bool
is_not_found not_found = true
is_not_found (wrap s e) = is_not_found e
is_not_found _ = false

-- errors.Is(err, ErrAlreadyExists)
unfoldable pub is_already_exists : Error → Bool
is_already_exists already_exists = true
is_already_exists (wrap s e) = is_already_exists e
is_already_exists _ = false

-- err.Error()
unfoldable pub error_text : Error → String
error_text not_found = "not found"
error_text already_exists = "already exists"
error_text (message s) = s
error_text (pg_error code s) = s
error_text (wrap s e) = s ++ ": " ++ error_text e

-- The result of a function that returns `(A, error)`.
pub data Result {ℓ} (A : Type ℓ) : Type ℓ where
  ok : A → Result A
  err : Error → Result A

-- errors.go: isUniqueViolation, on the error itself or one that it wraps.
unfoldable pub is_unique_violation : Error → Bool
is_unique_violation (pg_error code s) = str_eq code "23505"
is_unique_violation (wrap s e) = is_unique_violation e
is_unique_violation _ = false

pub Result-cases {ℓ} :
    {A : Type ℓ} (r : Result A) → ((a : A) × (r ≡ ok a)) ⊎ ((e : Error) × (r ≡ err e))
Result-cases (ok a) = inl (a, refl)
Result-cases (err e) = inr (e, refl)

pub is_not_found-not_found : is_not_found not_found ≡ true
unfolding is_not_found
is_not_found-not_found = refl
