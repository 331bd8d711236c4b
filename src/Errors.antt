-- ===== src/Errors.antt =====
-- src/rescs/errors.py: the classes of error, their codes and HTTP statuses. A method that may raise
-- returns a `Result`; one that also changes an object is an `Action`, whose state comes back after a
-- raise too, since what was written stays written. The texts and the `details` of an error are not
-- modelled, its class is.
use rescs.Prelude.{◌≡◌, ◌⊎◌, inl, inr, refl, String, ℕ, Bool, true, false}

pub data Error : Type 0 where
  rescs_error configuration invalid_request unauthorized forbidden not_found conflict : Error
  precondition_failed unprocessable_content storage payload_too_large quota_exceeded : Error
  dependency_unavailable : Error
  -- Python's own exceptions, which are no `RESCSError`.
  key_error value_error : Error

-- `error.code if isinstance(error, RESCSError) else type(error).__name__`
unfoldable pub code : Error → String
code rescs_error = "INTERNAL_ERROR"
code configuration = "CONFIGURATION_ERROR"
code invalid_request = "INVALID_REQUEST"
code unauthorized = "UNAUTHORIZED"
code forbidden = "FORBIDDEN"
code not_found = "NOT_FOUND"
code conflict = "CONFLICT"
code precondition_failed = "PRECONDITION_FAILED"
code unprocessable_content = "UNPROCESSABLE_CONTENT"
code storage = "STORAGE_ERROR"
code payload_too_large = "PAYLOAD_TOO_LARGE"
code quota_exceeded = "QUOTA_EXCEEDED"
code dependency_unavailable = "DEPENDENCY_UNAVAILABLE"
code key_error = "KeyError"
code value_error = "ValueError"

unfoldable pub status_code : Error → ℕ
status_code invalid_request = 400
status_code unauthorized = 401
status_code forbidden = 403
status_code not_found = 404
status_code conflict = 409
status_code precondition_failed = 412
status_code unprocessable_content = 422
status_code payload_too_large = 413
status_code quota_exceeded = 403
status_code dependency_unavailable = 503
status_code _ = 500

pub data Result {ℓ} (A : Type ℓ) : Type ℓ where
  ok : A → Result A
  err : Error → Result A

abbrev pub is_ok {ℓ} : {A : Type ℓ} → Result A → Bool
is_ok (ok _) = true
is_ok (err _) = false

-- `if b: raise e`
abbrev pub fail_if : Bool → Error → Result (Unit {0})
fail_if true e = err e
fail_if false e = ok tt

pub Result-cases {ℓ} :
    {A : Type ℓ} (r : Result A) → ((a : A) × (r ≡ ok a)) ⊎ ((e : Error) × (r ≡ err e))
Result-cases (ok a) = inl (a, refl)
Result-cases (err e) = inr (e, refl)
