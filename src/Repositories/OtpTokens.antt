-- ===== src/Repositories/OtpTokens.antt =====
-- src/repositories/otp-token.repository.ts.
use hashira_be_railway_deplo.Base.{
  ◌+◌, Bool, true, false, not, Option, ◌&&◌, [], ◌∷◌, ◌++◌, Text, text_eq, ltb, ◌==◌,
}
use hashira_be_railway_deplo.Entities.{Uuid, Date, OtpToken}
use hashira_be_railway_deplo.Platform.{Platform}
use hashira_be_railway_deplo.World.Monad.{App, gets, draw, modify_db, ◌>>=◌}
use hashira_be_railway_deplo.Repositories.Sql.{update_where}

unfoldable pub is_live_otp : Text → Date → OtpToken → Bool
is_live_otp email_hash now t = text_eq t.email_hash email_hash && not t.used && ltb now t.expires_at

unfoldable pub mark_otp_used : OtpToken → OtpToken
mark_otp_used t = record t { used = true }

unfoldable pub add_attempt : OtpToken → OtpToken
add_attempt t = record t { attempts = t.attempts + 1 }

unfoldable pub mark_otp_token_used : Uuid → App (Unit {0})
mark_otp_token_used id =
    modify_db
      λ db. record db { otp_tokens = update_where (λ t. t.id == id) mark_otp_used db.otp_tokens }

unfoldable pub increment_otp_attempts : Uuid → App (Unit {0})
increment_otp_attempts id =
    modify_db
      λ db. record db { otp_tokens = update_where (λ t. t.id == id) add_attempt db.otp_tokens }

module _ ⦃p : Platform⦄ where
  unfoldable pub find_latest_otp_token : Text → App (Option OtpToken)
  find_latest_otp_token email_hash =
      gets λ w. p.find_latest (λ t. t.created_at) (is_live_otp email_hash w.now) w.otp_tokens

  unfoldable pub insert_otp_token : Text → Text → Date → App (Unit {0})
  insert_otp_token email_hash otp_hash expires_at = do
    id ← draw p.uuid
    now ← gets (λ w. w.now)
    let token : OtpToken = record {
      id = id;
      email_hash = email_hash;
      otp_hash = otp_hash;
      expires_at = expires_at;
      used = false;
      attempts = 0;
      created_at = now;
    }
    modify_db λ db. record db { otp_tokens = db.otp_tokens ++ token ∷ [] }
