-- ===== src/Repositories/RefreshTokens.antt =====
-- src/repositories/refresh-token.repository.ts.
use hashira_be_railway_deplo.Base.{
  Bool, true, false, not, Option, ◌&&◌, [], ◌∷◌, ◌++◌, Text, text_eq, ltb, any,
}
use hashira_be_railway_deplo.Entities.{Uuid, Date, RefreshToken}
use hashira_be_railway_deplo.Platform.{Platform}
use hashira_be_railway_deplo.World.Monad.{App, gets, draw, modify_db, throw_if, ◌>>=◌, ◌>>◌}
use hashira_be_railway_deplo.Repositories.Sql.{update_where, unique_violation}

unfoldable pub is_live_refresh : Text → Date → RefreshToken → Bool
is_live_refresh token_hash now t =
    text_eq t.token_hash token_hash && not t.used && ltb now t.expires_at

unfoldable pub mark_refresh_used : RefreshToken → RefreshToken
mark_refresh_used t = record t { used = true }

unfoldable pub mark_refresh_token_used_by_hash : Text → App (Unit {0})
mark_refresh_token_used_by_hash token_hash = modify_db λ db. record db {
  refresh_tokens =
      update_where (λ t. text_eq t.token_hash token_hash && not t.used) mark_refresh_used
        db.refresh_tokens;
}

module _ ⦃p : Platform⦄ where
  unfoldable pub find_refresh_token_by_hash : Text → App (Option RefreshToken)
  find_refresh_token_by_hash token_hash =
      gets λ w. p.find_one (is_live_refresh token_hash w.now) w.refresh_tokens

  unfoldable pub insert_refresh_token : Uuid → Text → Date → App (Unit {0})
  insert_refresh_token user_id token_hash expires_at = do
    throw_if (← gets λ w. any (λ t. text_eq t.token_hash token_hash) w.refresh_tokens)
        unique_violation
    id ← draw p.uuid
    now ← gets (λ w. w.now)
    let token : RefreshToken = record {
      id = id;
      token_hash = token_hash;
      user_id = user_id;
      expires_at = expires_at;
      used = false;
      created_at = now;
    }
    modify_db λ db. record db { refresh_tokens = db.refresh_tokens ++ token ∷ [] }
