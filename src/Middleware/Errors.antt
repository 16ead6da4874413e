-- ===== src/Middleware/Errors.antt =====
-- src/middleware/errorHandler.ts.
use hashira_be_railway_deplo.Base.{ℕ, Option, none, some, Text, str, from_option, if◌then◌else◌}
use hashira_be_railway_deplo.Base.Strings.{truthy}
use hashira_be_railway_deplo.Types.{
  Error, Code, status_code, error_message, auth_error, validation_failed, not_found_error,
  forbidden_error, conflict_error, gone_error, unprocessable_error, rate_limit_error,
}
use hashira_be_railway_deplo.Platform.{Platform}

-- The response: of an `AppError` its code, of another error the message that is shown.
pub record ErrorResponse : Type 0 where
  pub status : ℕ
  pub retry_after : Option ℕ
  pub code : Option Code
  pub message : Option Text

-- The code of an `AppError`.
unfoldable pub error_code : Error → Option Code
error_code (auth_error c) = some c
error_code (validation_failed c) = some c
error_code (not_found_error c) = some c
error_code (forbidden_error c) = some c
error_code (conflict_error c) = some c
error_code (gone_error c) = some c
error_code (unprocessable_error c) = some c
error_code (rate_limit_error c retry) = some c
error_code _ = none

unfoldable pub retry_after_of : Error → Option ℕ
retry_after_of (rate_limit_error c retry) = retry
retry_after_of _ = none

module _ ⦃p : Platform⦄ where
  unfoldable pub shown_message : Error → Text
  unfolding error_message
  shown_message e =
      if p.production
      then str "An unexpected error occurred"
      else from_option (str "An unexpected error occurred") (λ m. m)
          (truthy (some (error_message e)))

  unfoldable pub error_handler : Error → ErrorResponse
  unfolding status_code error_code retry_after_of shown_message
  error_handler e = elim (status_code e) [
    | some status ↦ record {
      status = status;
      retry_after = retry_after_of e;
      code = error_code e;
      message = none;
    }
    | none ↦ record {
      status = 500;
      retry_after = none;
      code = none;
      message = some (shown_message e);
    }
  ]
