-- ===== src/Errors.antt =====
-- src/error.rs: the errors of the control plane, their messages, and how they are answered.
use Prim.Native.String.{◌++◌ as ◌+++◌}
use xanh_tab.Prelude.{Bool, true, false, ℕ, String, ◌≡◌, refl, ◌⊎◌, inl, inr}

-- `AppError`
pub data AppError : Type 0 where
  unauthorized invalid_csrf invalid_pairing lease_conflict : AppError
  session_not_active invalid_transition not_found navigation_blocked : AppError
  invalid_request service_unavailable dependency_failure : String → AppError
  encoder_failure signaling_failure leak_test_failure : String → AppError
  internal : AppError

-- `Result<T, AppError>`
pub data Result {ℓ} (A : Type ℓ) : Type ℓ where
  ok : A → Result A
  err : AppError → Result A

-- `Result::is_ok`
abbrev pub is_ok {ℓ} : {A : Type ℓ} → Result A → Bool
is_ok (ok _) = true
is_ok (err _) = false

-- The messages of the `#[error]` attributes.
pub display : AppError → String
display unauthorized = "authentication required"
display invalid_csrf = "invalid or expired CSRF token"
display invalid_pairing = "pairing secret is invalid or has already been used"
display lease_conflict = "control lease is held by another client"
display session_not_active = "session is not active"
display invalid_transition = "session transition is not allowed from the current state"
display not_found = "resource not found"
display navigation_blocked = "navigation blocked by the active session policy"
display (invalid_request detail) = ◌+++◌ "invalid request: " detail
display (service_unavailable detail) = ◌+++◌ "service unavailable: " detail
display (dependency_failure detail) = ◌+++◌ "dependency unavailable: " detail
display (encoder_failure detail) = ◌+++◌ "encoder unavailable: " detail
display (signaling_failure detail) = ◌+++◌ "signaling unavailable: " detail
display (leak_test_failure detail) = ◌+++◌ "egress leak test failed: " detail
display internal = "internal error"

-- `AppError::status_and_code`
pub status_and_code : AppError → ℕ × String
status_and_code unauthorized = (401, "AUTH_REQUIRED")
status_and_code invalid_csrf = (403, "CSRF_INVALID")
status_and_code invalid_pairing = (401, "PAIRING_INVALID")
status_and_code lease_conflict = (409, "LEASE_CONFLICT")
status_and_code session_not_active = (409, "SESSION_INACTIVE")
status_and_code invalid_transition = (409, "SESSION_TRANSITION_INVALID")
status_and_code not_found = (404, "NOT_FOUND")
status_and_code navigation_blocked = (403, "NAVIGATION_BLOCKED")
status_and_code (invalid_request _) = (400, "REQUEST_INVALID")
status_and_code (service_unavailable _) = (503, "SERVICE_UNAVAILABLE")
status_and_code (dependency_failure _) = (503, "DEPENDENCY_UNAVAILABLE")
status_and_code (encoder_failure _) = (503, "ENCODER_UNAVAILABLE")
status_and_code (signaling_failure _) = (502, "SIGNALING_UNAVAILABLE")
status_and_code (leak_test_failure _) = (502, "LEAK_TEST_FAILED")
status_and_code internal = (500, "INTERNAL_ERROR")

-- To split on a computed result and keep the equation.
pub Result-cases {ℓ} :
    {A : Type ℓ} (r : Result A) → ((a : A) × (r ≡ ok a)) ⊎ ((e : AppError) × (r ≡ err e))
Result-cases (ok a) = inl (a, refl)
Result-cases (err e) = inr (e, refl)
