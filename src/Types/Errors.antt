-- ===== src/Types/Errors.antt =====
-- src/types/errors.ts. An error is its class with its `code`; of the fixed English messages only
-- that of an error from outside the program is kept, because the program stores and inspects it.
use hashira_be_railway_deplo.Base.{ℕ, Option, some, none, [], Text}

pub data Code : Type 0 where
  unauthorized invalid_otp invalid_credentials invalid_totp invalid_api_key api_key_required : Code
  validation_error invalid_user_for_org not_found conflict gone unprocessable : Code
  forbidden org_suspended org_not_active org_access_denied user_limit_reached no_invitation : Code
  no_org insufficient_role insufficient_permissions rate_limit_exceeded : Code

-- The subclasses of `AppError`, and every other `Error` with its message; a system error of node has
-- a `code` of its own.
pub data Error : Type 0 where
  auth_error validation_failed not_found_error forbidden_error : Code → Error
  conflict_error gone_error unprocessable_error : Code → Error
  rate_limit_error : Code → (retry_after : Option ℕ) → Error
  other_error : Text → Error
  system_error : (code message : Text) → Error

-- The `statusCode` that each class passes to `AppError`; `none` for any other error.
unfoldable pub status_code : Error → Option ℕ
status_code (auth_error _) = some 401
status_code (validation_failed _) = some 400
status_code (not_found_error _) = some 404
status_code (forbidden_error _) = some 403
status_code (conflict_error _) = some 409
status_code (gone_error _) = some 410
status_code (unprocessable_error _) = some 422
status_code (rate_limit_error _ _) = some 429
status_code (other_error _) = none
status_code (system_error _ _) = none

pub data Result {ℓ} (A : Type ℓ) : Type ℓ where
  ok : A → Result A
  err : Error → Result A

-- `error instanceof Error ? error.message : String(error)`, for errors from outside the program.
unfoldable pub error_message : Error → Text
error_message (other_error message) = message
error_message (system_error code message) = message
error_message _ = []
