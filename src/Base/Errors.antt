-- ===== src/Base/Errors.antt =====
-- core/domain/errors.go: the sentinel errors that callers tell apart, and the results of calls
-- that may fail.
use mathlib.Core.Path.{◌≡◌, refl}
use mathlib.Core.Logic.{◌⊎◌, inl, inr}

-- `internal` is an error that wraps no sentinel, such as a failed call of the database driver.
pub data Error : Type 0 where
  not_found already_exists invalid_input unauthorized forbidden : Error
  token_expired token_invalid token_revoked : Error
  invalid_client invalid_grant invalid_scope expired_code invalid_redirect_uri : Error
  unsupported_grant_type unsupported_response_type invalid_code_challenge : Error
  internal : Error

pub data Result {ℓ} (A : Type ℓ) : Type ℓ where
  ok : A → Result A
  err : Error → Result A

pub Result-cases {ℓ} :
    {A : Type ℓ} (r : Result A) → ((a : A) × (r ≡ ok a)) ⊎ ((e : Error) × (r ≡ err e))
Result-cases (ok a) = inl (a, refl)
Result-cases (err e) = inr (e, refl)
