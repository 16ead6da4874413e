-- ===== src/Controllers/Validators.antt =====
-- src/validators and src/middleware/validateBody.ts: the schemas as tests of bodies whose fields have
-- the types that the schema asks for. A length is a number of UTF-16 code units.
use hashira_be_railway_deplo.Base.{
  ℕ, Bool, true, not, ◌&&◌, ◌||◌, Option, List, [], ◌∷◌, Text, length, leb, ◌==◌, from_option,
  is_some,
}
use hashira_be_railway_deplo.Types.{
  ApiKeyPermission, has_permission, validation_failed, validation_error,
}
use hashira_be_railway_deplo.Platform.{Platform}
use hashira_be_railway_deplo.World.Monad.{App, throw_if}
use hashira_be_railway_deplo.Events.Ingestion.{CreateEventBody}
use hashira_be_railway_deplo.Organisations.Service.{CreateOrgBody}
use hashira_be_railway_deplo.Controllers.Organisations.{CreateApiKeyBody}

-- `.min(lo)` and `.max(hi)`
unfoldable pub within : ℕ → ℕ → Text → Bool
within lo hi s = leb lo (length s) && leb (length s) hi

-- `.optional()`
abbrev pub optional : (Text → Bool) → Option Text → Bool
optional test value = from_option true test value

unfoldable pub all_digits : Text → Bool
all_digits [] = true
all_digits (c ∷ s) = leb b'0' c && leb c b'9' && all_digits s

-- `/^\d{6}$/`
unfoldable pub is_six_digits : Text → Bool
unfolding all_digits
is_six_digits s = length s == 6 && all_digits s

abbrev pub max_prompt_length : ℕ
max_prompt_length = 100000

abbrev pub max_output_length : ℕ
max_output_length = 100000

abbrev pub max_model_length : ℕ
max_model_length = 100

abbrev pub max_workflow_id_length : ℕ
max_workflow_id_length = 200

-- `new Set(perms).size === perms.length`
unfoldable pub all_different : List ApiKeyPermission → Bool
all_different [] = true
all_different (q ∷ ps) = not (has_permission q ps) && all_different ps

unfoldable pub valid_password : Text → Bool
valid_password password = leb 8 (length password)

-- GoogleAuthSchema
unfoldable pub valid_google_token : Text → Bool
valid_google_token token = leb 1 (length token)

-- Both ways of signing up, or neither.
unfoldable pub one_way : CreateOrgBody → Bool
one_way body =
    let email_path = is_some body.admin_email && is_some body.password in
    let google_path = is_some body.google_id_token in
    (email_path || google_path) && not (email_path && google_path)

-- `next(new ValidationError(…))` if the body does not fit.
unfoldable pub validate_body : Bool → App (Unit {0})
validate_body fits = throw_if (not fits) (validation_failed validation_error)

module _ ⦃p : Platform⦄ where
  -- LoginSchema
  unfoldable pub valid_login : Text → Text → Bool
  unfolding valid_password
  valid_login email password = p.is_email email && valid_password password

  -- OtpVerifySchema and MfaVerifySchema
  unfoldable pub valid_code : Text → Text → Bool
  unfolding is_six_digits
  valid_code email code = p.is_email email && is_six_digits code

  -- PasswordResetConfirmSchema
  unfoldable pub valid_reset : Text → Text → Text → Bool
  unfolding valid_code valid_password
  valid_reset email otp new_password = valid_code email otp && valid_password new_password

  -- CreateApiKeySchema
  unfoldable pub valid_api_key : CreateApiKeyBody → Bool
  unfolding all_different within
  valid_api_key body =
      leb 1 (length body.permissions)
      && leb (length body.permissions) 3
      && all_different body.permissions
      && optional p.is_email body.email
      && optional (within 1 100) body.name

  -- CreateEventSchema, with the text of the timestamp
  unfoldable pub valid_event : Text → CreateEventBody → Bool
  unfolding within
  valid_event timestamp body =
      within 1 max_prompt_length body.prompt
      && within 1 max_output_length body.output
      && within 1 max_model_length body.model_id
      && p.is_datetime timestamp
      && optional (within 0 max_workflow_id_length) body.workflow_id

  -- CreateOrgSchema
  unfoldable pub valid_organisation : CreateOrgBody → Bool
  unfolding within valid_password one_way
  valid_organisation body =
      within 2 100 body.org_name
      && optional p.is_email body.admin_email
      && optional valid_password body.password
      && one_way body
