-- ===== src/Controllers/Http.antt =====
-- An answer of src/controllers, and the two cookies of a session.
use hashira_be_railway_deplo.Base.{ℕ, ◌*◌, Bool, true, List, [], ◌∷◌, Text, str}
use hashira_be_railway_deplo.Platform.{Platform}

pub data SameSite : Type 0 where
  strict none : SameSite

pub record Cookie : Type 0 where
  pub name : Text
  pub value : Text
  pub http_only : Bool
  pub secure : Bool
  pub same_site : SameSite
  pub max_age : ℕ

-- The status, the cookies in the order in which they are set, and the `data` of the body.
pub record Response (A : Type 0) : Type 0 where
  pub status : ℕ
  pub cookies : List Cookie
  pub body : A

abbrev pub session_max_age_ms : ℕ
session_max_age_ms = 86400 * 1000

abbrev pub refresh_max_age_ms : ℕ
refresh_max_age_ms = 604800 * 1000

-- Two cookies with one set of attributes.
unfoldable pub cookie_pair : Bool → SameSite → Text → Text → List Cookie
cookie_pair secure same_site session_token refresh_token =
    record {
      name = str "hashira_session";
      value = session_token;
      http_only = true;
      secure = secure;
      same_site = same_site;
      max_age = session_max_age_ms;
    }
    ∷ record {
      name = str "hashira_refresh";
      value = refresh_token;
      http_only = true;
      secure = secure;
      same_site = same_site;
      max_age = refresh_max_age_ms;
    }
    ∷ []

-- An answer that sets no cookie.
unfoldable pub reply : {A : Type 0} → ℕ → A → Response A
reply status body = record { status = status; cookies = []; body = body }

module _ ⦃p : Platform⦄ where
  -- The attributes that most handlers use.
  unfoldable pub session_cookies : Text → Text → List Cookie
  unfolding cookie_pair
  session_cookies session_token refresh_token =
      cookie_pair p.production SameSite.strict session_token refresh_token
