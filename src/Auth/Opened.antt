-- ===== src/Auth/Opened.antt =====
-- What src/utils/jwt.ts and the repository of refresh tokens do when a session is opened.
use hashira_be_railway_deplo.Base.{◌+◌, ◌*◌, ◌≡◌, refl, false, [], ◌∷◌, ◌++◌, arith}
use hashira_be_railway_deplo.Types.{ok}
use hashira_be_railway_deplo.Entities.{RefreshToken}
use hashira_be_railway_deplo.Platform.{Platform, JwtPayload}
use hashira_be_railway_deplo.World.{World}
use hashira_be_railway_deplo.Auth.Session.{Session, open_session}

module _ ⦃p : Platform⦄ where
  pub record Opened (payload : JwtPayload) (s : Session) (w w' : World) : Type 0 where
    pub token : RefreshToken
    pub user : s.user ≡ payload
    pub session_token : s.session_token ≡ p.jwt_sign payload w.now
    pub stored : token.token_hash ≡ p.sha256 s.refresh_token
    pub owner : token.user_id ≡ payload.user_id
    pub state : w' ≡ record w {
      calls = w'.calls;
      db = record w.db { refresh_tokens = w.refresh_tokens ++ token ∷ [] };
    }

  pub open_session-Opened :
      (payload : JwtPayload) (s : Session) (w w' : World)
      → open_session payload w ≡ (ok s, w')
      → Opened payload s w w'
  unfolding open_session
  open_session-Opened payload s w w' h = record {
    token = record {
      id = p.uuid (w.calls + 1);
      token_hash = p.sha256 (p.random_token w.calls);
      user_id = payload.user_id;
      expires_at = w.now + 7 * 24 * 60 * 60 * 1000;
      used = false;
      created_at = w.now;
    };
    user = ground arith;
    session_token = ground arith;
    stored = ground arith;
    owner = refl;
    state = ground arith;
  }
