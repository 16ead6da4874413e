-- ===== src/Repositories/PasswordResetTokens.antt =====
-- src/repositories/password-reset-token.repository.ts.
use hashira_be_railway_deplo.Base.{
  Bool, true, false, not, Option, some, ◌&&◌, [], ◌∷◌, ◌++◌, Text, text_eq, ltb, any, ◌==◌,
}
use hashira_be_railway_deplo.Entities.{Uuid, Date, PasswordResetToken}
use hashira_be_railway_deplo.Platform.{Platform}
use hashira_be_railway_deplo.World.Monad.{
  App, gets, draw, modify_db, throw_if, transaction, ◌>>=◌, ◌>>◌,
}
use hashira_be_railway_deplo.Repositories.Sql.{update_where, unique_violation}
use hashira_be_railway_deplo.Repositories.Users.{update_user}

unfoldable pub is_live_reset : Text → Date → PasswordResetToken → Bool
is_live_reset token_hash now t =
    text_eq t.token_hash token_hash && not t.used && ltb now t.expires_at

unfoldable pub mark_reset_used : PasswordResetToken → PasswordResetToken
mark_reset_used t = record t { used = true }

unfoldable pub apply_password_reset : Uuid → Uuid → Text → App (Unit {0})
unfolding update_user
apply_password_reset user_id token_id password_hash = transaction do
  update_user user_id (λ u. record u { password_hash = some password_hash })
  modify_db λ db. record db {
    password_reset_tokens =
        update_where (λ t. t.token_id == token_id) mark_reset_used db.password_reset_tokens;
  }

module _ ⦃p : Platform⦄ where
  unfoldable pub find_password_reset_token : Text → App (Option PasswordResetToken)
  find_password_reset_token token_hash =
      gets λ w. p.find_one (is_live_reset token_hash w.now) w.password_reset_tokens

  unfoldable pub insert_password_reset_token : Uuid → Text → Date → App (Unit {0})
  insert_password_reset_token user_id token_hash expires_at = do
    throw_if (← gets λ w. any (λ t. text_eq t.token_hash token_hash) w.password_reset_tokens)
        unique_violation
    token_id ← draw p.uuid
    now ← gets (λ w. w.now)
    let token : PasswordResetToken = record {
      token_id = token_id;
      user_id = user_id;
      token_hash = token_hash;
      used = false;
      expires_at = expires_at;
      created_at = now;
    }
    modify_db λ db. record db { password_reset_tokens = db.password_reset_tokens ++ token ∷ [] }
