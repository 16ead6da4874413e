-- ===== src/Auth/Refresh.antt =====
-- src/services/auth/refresh.service.ts, and src/controllers/auth/logout.controller.ts, which
-- withdraws a refresh token.
pub mod Rotation
use hashira_be_railway_deplo.Base.{◌+◌, Option, none, some, [], ◌∷◌, Text, ◌==◌}
use hashira_be_railway_deplo.Types.{auth_error, unauthorized}
use hashira_be_railway_deplo.Entities.{User, RefreshToken}
use hashira_be_railway_deplo.Platform.{Platform}
use hashira_be_railway_deplo.World.Monad.{
  App, gets, or_throw, modify_db, transaction, pure, ◌>>=◌, ◌>>◌,
}
use hashira_be_railway_deplo.Repositories.Sql.{update_where}
use hashira_be_railway_deplo.Repositories.Users.{find_user_by_id}
use hashira_be_railway_deplo.Repositories.RefreshTokens.{
  find_refresh_token_by_hash, insert_refresh_token, mark_refresh_used,
  mark_refresh_token_used_by_hash,
}
use hashira_be_railway_deplo.Auth.Session.{
  payload_of, sign_jwt, generate_refresh_token, refresh_token_ttl_ms,
}

pub record RefreshResult : Type 0 where
  pub session_token : Text
  pub refresh_token : Text

module _ ⦃p : Platform⦄ where
  -- The transaction: the old token is marked by its id, and the new one saved.
  unfoldable pub swap_tokens : RefreshToken → User → Text → App (Unit {0})
  swap_tokens existing user new_hash = transaction do
    modify_db λ db. record db {
      refresh_tokens = update_where (λ t. t.id == existing.id) mark_refresh_used db.refresh_tokens;
    }
    now ← gets (λ w. w.now)
    insert_refresh_token user.user_id new_hash (now + refresh_token_ttl_ms)

  unfoldable pub rotate_refresh_token : Text → App RefreshResult
  unfolding swap_tokens find_refresh_token_by_hash find_user_by_id insert_refresh_token sign_jwt
      generate_refresh_token
  rotate_refresh_token inbound_raw_token = do
    let token_hash = p.sha256 inbound_raw_token
    found ← find_refresh_token_by_hash token_hash
    existing ← or_throw found (auth_error unauthorized)
    found_user ← find_user_by_id existing.user_id
    user ← or_throw found_user (auth_error unauthorized)
    new_raw_token ← generate_refresh_token
    swap_tokens existing user (p.sha256 new_raw_token)
    session_token ← sign_jwt (payload_of user)
    pure (record { session_token = session_token; refresh_token = new_raw_token })

  -- An absent or empty cookie withdraws nothing.
  unfoldable pub logout : Option Text → App (Unit {0})
  unfolding mark_refresh_token_used_by_hash
  logout none = pure tt
  logout (some []) = pure tt
  logout (some (c ∷ cs)) = mark_refresh_token_used_by_hash (p.sha256 (c ∷ cs))
