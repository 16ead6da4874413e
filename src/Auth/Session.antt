-- ===== src/Auth/Session.antt =====
-- The end of every login: a session token, and a refresh token of which only the hash is stored.
-- src/utils/jwt.ts, and the same lines in the services for OTP, Google, MFA and organisations.
use hashira_be_railway_deplo.Base.{ℕ, ◌+◌, ◌*◌, Text}
use hashira_be_railway_deplo.Entities.{User}
use hashira_be_railway_deplo.Platform.{Platform, JwtPayload}
use hashira_be_railway_deplo.World.Monad.{App, gets, draw, pure, ◌>>=◌, ◌>>◌}
use hashira_be_railway_deplo.Repositories.RefreshTokens.{insert_refresh_token}

-- REFRESH_TOKEN_TTL_MS
abbrev pub refresh_token_ttl_ms : ℕ
refresh_token_ttl_ms = 7 * 24 * 60 * 60 * 1000

unfoldable pub payload_of : User → JwtPayload
payload_of user = record {
  user_id = user.user_id;
  org_id = user.org_id;
  role = user.role;
  email = user.email;
}

pub record Session : Type 0 where
  pub session_token : Text
  pub refresh_token : Text
  pub user : JwtPayload

module _ ⦃p : Platform⦄ where
  unfoldable pub sign_jwt : JwtPayload → App Text
  sign_jwt payload = gets λ w. p.jwt_sign payload w.now

  unfoldable pub generate_refresh_token : App Text
  generate_refresh_token = draw p.random_token

  unfoldable pub open_session : JwtPayload → App Session
  unfolding sign_jwt generate_refresh_token insert_refresh_token
  open_session payload = do
    session_token ← sign_jwt payload
    refresh_token ← generate_refresh_token
    let token_hash = p.sha256 refresh_token
    now ← gets (λ w. w.now)
    insert_refresh_token payload.user_id token_hash (now + refresh_token_ttl_ms)
    pure (record { session_token = session_token; refresh_token = refresh_token; user = payload })
