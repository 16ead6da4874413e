-- ===== src/Auth/Checks.antt =====
-- Runs of the services on concrete states, and each theorem about them at a concrete input.
use hashira_be_railway_deplo.Base.{◌≡◌, refl, [], ◌∷◌, str, some, text_eq, any}
use hashira_be_railway_deplo.Base.Hex.{hex_encode}
use hashira_be_railway_deplo.Types.{ok, err, auth_error, unauthorized}
use hashira_be_railway_deplo.World.{World}
use hashira_be_railway_deplo.Repositories.RefreshTokens.{is_live_refresh, mark_refresh_used}
use hashira_be_railway_deplo.Auth.Session.{payload_of}
use hashira_be_railway_deplo.Auth.Refresh.{RefreshResult, rotate_refresh_token, logout}
use hashira_be_railway_deplo.Auth.Refresh.Rotation.{
  rotate_refresh_token_single_use, rotate_refresh_token-logout,
}
use hashira_be_railway_deplo.Samples.Rows.{find_first}
use hashira_be_railway_deplo.Samples.Services.{demo, start, ann}

abbrev rotated : RefreshResult
rotated = record { session_token = ann.email; refresh_token = b't' ∷ 0 ∷ [] }

abbrev after_rotation : World
after_rotation = (rotate_refresh_token (str "r1") start).1

rotate_start : rotate_refresh_token (str "r1") start ≡ (ok rotated, after_rotation)
unfolding rotate_refresh_token find_first is_live_refresh hex_encode text_eq any mark_refresh_used
    payload_of
rotate_start = refl

rotate_refresh_token_single_use_example :
    rotate_refresh_token (str "r1") (record after_rotation { now = 2000 })
    ≡ (err (auth_error unauthorized), record after_rotation { now = 2000 })
rotate_refresh_token_single_use_example =
    rotate_refresh_token_single_use (str "r1") start after_rotation
      (record after_rotation { now = 2000 }) rotated (tt, tt) rotate_start refl

abbrev after_logout : World
after_logout = (logout (some (str "r1")) start).1

rotate_refresh_token-logout_example :
    rotate_refresh_token (str "r1") after_logout ≡ (err (auth_error unauthorized), after_logout)
rotate_refresh_token-logout_example =
    rotate_refresh_token-logout b'r' (b'1' ∷ []) start after_logout refl
