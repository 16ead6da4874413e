-- ===== src/Auth/PasswordReset/Checks.antt =====
-- The theorems about password resets at a concrete state.
use hashira_be_railway_deplo.Base.{◌≡◌, ◌≢◌, refl, str, false, [], ◌∷◌, text_eq}
use hashira_be_railway_deplo.Base.Hex.{hex_encode}
use hashira_be_railway_deplo.Base.Strings.{to_lower_case}
use hashira_be_railway_deplo.Auth.Attempts.{lockout}
use hashira_be_railway_deplo.Repositories.Users.{find_user_by_email}
use hashira_be_railway_deplo.Repositories.PasswordResetTokens.{
  find_password_reset_token, is_live_reset, apply_password_reset,
}
use hashira_be_railway_deplo.Types.{ok}
use hashira_be_railway_deplo.Entities.{PasswordResetToken}
use hashira_be_railway_deplo.World.{World}
use hashira_be_railway_deplo.Auth.PasswordReset.{confirm_reset}
use hashira_be_railway_deplo.Auth.PasswordReset.Confirmed.{
  Confirmed, confirm_reset-Confirmed, confirm_reset_single_use,
}
use hashira_be_railway_deplo.Samples.Rows.{find_first}
use hashira_be_railway_deplo.Samples.Services.{demo, start}

abbrev reset_token : PasswordResetToken
reset_token = record {
  token_id = 40;
  user_id = 1;
  token_hash = hex_encode (str "ann@x.io111111");
  used = false;
  expires_at = 9000;
  created_at = 2;
}

abbrev asked : World
asked = record start { db = record start.db { password_reset_tokens = reset_token ∷ [] } }

abbrev confirmed : World
confirmed = (confirm_reset (str "Ann@x.io") (str "111111") (str "new") asked).1

confirm_asked : confirm_reset (str "Ann@x.io") (str "111111") (str "new") asked ≡ (ok tt, confirmed)
unfolding confirm_reset find_first lockout find_password_reset_token is_live_reset text_eq
    hex_encode to_lower_case find_user_by_email apply_password_reset
confirm_asked = refl

confirm_reset-Confirmed_example :
    Confirmed (str "Ann@x.io") (str "111111") (str "new") asked confirmed
confirm_reset-Confirmed_example =
    confirm_reset-Confirmed (str "Ann@x.io") (str "111111") (str "new") asked confirmed
      confirm_asked

confirm_reset_single_use_example :
    confirm_reset (str "Ann@x.io") (str "111111") (str "other") confirmed ≢ (ok tt, confirmed)
confirm_reset_single_use_example =
    confirm_reset_single_use (str "Ann@x.io") (str "111111") (str "new") (str "other") asked
      confirmed confirmed confirmed (tt, tt) confirm_asked refl
