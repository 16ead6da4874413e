-- ===== src/ApiKeys/Service.antt =====
-- src/services/api-key/api-key.service.ts.
pub mod Validation
use hashira_be_railway_deplo.Base.{
  ℕ, Option, none, some, Bool, not, List, [], ◌∷◌, ◌++◌, map, Text, str, text_eq, from_option, take,
  ◌||◌, ◌==◌, length, if◌then◌else◌,
}
use hashira_be_railway_deplo.Base.Hex.{hex_decode}
use hashira_be_railway_deplo.Base.Strings.{truthy}
use hashira_be_railway_deplo.Types.{
  ApiKeyPermission, ApiKeyStatus, is_suspended, is_active_org, is_active_key, auth_error,
  forbidden_error, not_found_error, validation_failed, invalid_api_key, org_suspended,
  org_not_active, invalid_user_for_org, not_found,
}
use hashira_be_railway_deplo.Entities.{Uuid, Date, ApiKey, Organisation}
use hashira_be_railway_deplo.Platform.{Platform}
use hashira_be_railway_deplo.World.Monad.{App, draw, pure, throw_if, or_throw, ◌>>=◌, ◌>>◌}
use hashira_be_railway_deplo.Repositories.ApiKeys.{
  create_api_key, find_api_key_by_hash, list_api_keys_by_org, find_api_key_by_id_and_org,
  touch_last_used, revoke_api_key,
}
use hashira_be_railway_deplo.Repositories.Organisations.{find_org_by_id}
use hashira_be_railway_deplo.Repositories.Users.{find_user_by_email_and_org}

pub record ValidatedApiKey : Type 0 where
  pub key_id : Uuid
  pub org_id : Uuid
  pub user_id : Option Uuid
  pub permissions : List ApiKeyPermission

-- The argument of the service's `createApiKey`.
pub record NewApiKey : Type 0 where
  pub org_id : Uuid
  pub email : Option Text
  pub permissions : Option (List ApiKeyPermission)
  pub name : Option Text

pub record CreatedApiKey : Type 0 where
  pub key_id : Uuid
  pub api_key : Text
  pub key_prefix : Text
  pub name : Option Text
  pub permissions : List ApiKeyPermission
  pub created_at : Date

pub record ApiKeySummary : Type 0 where
  pub key_id : Uuid
  pub key_prefix : Text
  pub name : Option Text
  pub permissions : List ApiKeyPermission
  pub status : ApiKeyStatus
  pub created_at : Date
  pub last_used_at : Option Date

-- `length` of both buffers differs, or `timingSafeEqual` fails.
unfoldable pub hash_differs : Text → Text → Bool
hash_differs stored inbound =
    not (length (hex_decode stored) == length (hex_decode inbound))
    || not (text_eq (hex_decode stored) (hex_decode inbound))

unfoldable pub validated : ApiKey → ValidatedApiKey
validated k = record {
  key_id = k.key_id;
  org_id = k.org_id;
  user_id = k.user_id;
  permissions = k.permissions;
}

unfoldable pub summary : ApiKey → ApiKeySummary
summary k = record {
  key_id = k.key_id;
  key_prefix = k.key_prefix;
  name = k.name;
  permissions = k.permissions;
  status = k.status;
  created_at = k.created_at;
  last_used_at = k.last_used_at;
}

module _ ⦃p : Platform⦄ where
  -- The update of `last_used_at` is started and not awaited; here it runs at once.
  unfoldable pub validate_api_key : Text → App ValidatedApiKey
  unfolding hash_differs validated find_api_key_by_hash find_org_by_id touch_last_used
  validate_api_key plaintext_key = do
    let inbound_hash = p.sha256 plaintext_key
    found ← find_api_key_by_hash inbound_hash
    api_key ← or_throw found (auth_error invalid_api_key)
    throw_if (hash_differs api_key.key_hash inbound_hash) (auth_error invalid_api_key)
    found_org ← find_org_by_id (some api_key.org_id)
    org ← or_throw found_org (auth_error invalid_api_key)
    throw_if (is_suspended org.status) (forbidden_error org_suspended)
    throw_if (not (is_active_org org.status)) (forbidden_error org_not_active)
    touch_last_used api_key.key_id
    pure (validated api_key)

  unfoldable pub resolve_user : Option Text → Uuid → App (Option Uuid)
  unfolding find_user_by_email_and_org
  resolve_user none org_id = pure none
  resolve_user (some email) org_id = do
    found ← find_user_by_email_and_org email org_id
    user ← or_throw found (validation_failed invalid_user_for_org)
    pure (some user.user_id)

  unfoldable pub create_key : NewApiKey → App CreatedApiKey
  unfolding resolve_user create_api_key
  create_key input = do
    let permissions = from_option (ApiKeyPermission.events_write ∷ []) (λ ps. ps) input.permissions
    resolved_user_id ← resolve_user (truthy input.email) input.org_id
    random ← draw p.random_token
    let plaintext_key = str "hsk_" ++ random
    saved ← create_api_key (record {
      org_id = input.org_id;
      user_id = resolved_user_id;
      key_hash = p.sha256 plaintext_key;
      key_prefix = take 8 plaintext_key;
      permissions = permissions;
      name = input.name;
    })
    pure (record {
      key_id = saved.key_id;
      api_key = plaintext_key;
      key_prefix = take 8 plaintext_key;
      name = saved.name;
      permissions = saved.permissions;
      created_at = saved.created_at;
    })

  unfoldable pub list_keys : Uuid → App (List ApiKeySummary)
  unfolding summary list_api_keys_by_org
  list_keys org_id = do rows ← list_api_keys_by_org org_id; pure (map summary rows)

  unfoldable pub revoke_unless_revoked : ApiKey → Uuid → Uuid → App (Unit {0})
  unfolding revoke_api_key
  revoke_unless_revoked existing key_id org_id w =
      if is_active_key existing.status then revoke_api_key key_id org_id w else pure tt w

  unfoldable pub revoke_key : Uuid → Uuid → App (Unit {0})
  unfolding revoke_unless_revoked find_api_key_by_id_and_org
  revoke_key key_id org_id = do
    found ← find_api_key_by_id_and_org key_id org_id
    existing ← or_throw found (not_found_error not_found)
    revoke_unless_revoked existing key_id org_id
