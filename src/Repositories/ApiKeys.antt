-- ===== src/Repositories/ApiKeys.antt =====
-- src/repositories/api-key.repository.ts.
use hashira_be_railway_deplo.Base.{
  Bool, Option, none, some, ◌&&◌, List, [], ◌∷◌, ◌++◌, Text, text_eq, any, keep, ◌==◌,
}
use hashira_be_railway_deplo.Types.{ApiKeyPermission, ApiKeyStatus, is_active_key}
use hashira_be_railway_deplo.Entities.{Uuid, ApiKey}
use hashira_be_railway_deplo.Platform.{Platform}
use hashira_be_railway_deplo.World.Monad.{App, gets, draw, modify_db, throw_if, pure, ◌>>=◌, ◌>>◌}
use hashira_be_railway_deplo.Repositories.Sql.{update_where, unique_violation}

pub record CreateApiKeyInput : Type 0 where
  pub org_id : Uuid
  pub user_id : Option Uuid
  pub key_hash : Text
  pub key_prefix : Text
  pub permissions : List ApiKeyPermission
  pub name : Option Text

unfoldable pub is_live_key : Text → ApiKey → Bool
is_live_key key_hash k = text_eq k.key_hash key_hash && is_active_key k.status

unfoldable pub is_key_of : Uuid → Uuid → ApiKey → Bool
is_key_of key_id org_id k = k.key_id == key_id && k.org_id == org_id

unfoldable pub revoke : ApiKey → ApiKey
revoke k = record k { status = ApiKeyStatus.revoked }

unfoldable pub touch_last_used : Uuid → App (Unit {0})
touch_last_used key_id w =
    modify_db
      (λ db. record db {
        api_keys =
            update_where (λ k. k.key_id == key_id) (λ k. record k { last_used_at = some w.now })
              db.api_keys;
      })
      w

unfoldable pub revoke_api_key : Uuid → Uuid → App (Unit {0})
revoke_api_key key_id org_id =
    modify_db
      λ db. record db { api_keys = update_where (is_key_of key_id org_id) revoke db.api_keys }

module _ ⦃p : Platform⦄ where
  unfoldable pub create_api_key : CreateApiKeyInput → App ApiKey
  create_api_key input = do
    throw_if (← gets λ w. any (λ k. text_eq k.key_hash input.key_hash) w.api_keys) unique_violation
    key_id ← draw p.uuid
    now ← gets (λ w. w.now)
    let key : ApiKey = record {
      key_id = key_id;
      org_id = input.org_id;
      user_id = input.user_id;
      key_hash = input.key_hash;
      key_prefix = input.key_prefix;
      name = input.name;
      status = ApiKeyStatus.active;
      permissions = input.permissions;
      created_at = now;
      last_used_at = none;
    }
    modify_db λ db. record db { api_keys = db.api_keys ++ key ∷ [] }
    pure key

  unfoldable pub find_api_key_by_hash : Text → App (Option ApiKey)
  find_api_key_by_hash key_hash = gets λ w. p.find_one (is_live_key key_hash) w.api_keys

  unfoldable pub list_api_keys_by_org : Uuid → App (List ApiKey)
  list_api_keys_by_org org_id =
      gets λ w. p.order_desc (λ k. k.created_at) (keep (λ k. k.org_id == org_id) w.api_keys)

  unfoldable pub find_api_key_by_id_and_org : Uuid → Uuid → App (Option ApiKey)
  find_api_key_by_id_and_org key_id org_id =
      gets λ w. p.find_one (is_key_of key_id org_id) w.api_keys
