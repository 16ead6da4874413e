-- ===== src/Auth/Otp/Checks.antt =====
-- The theorems about codes at a concrete state.
use hashira_be_railway_deplo.Base.{◌≡◌, ◌≢◌, refl, str, some, [], ◌∷◌, text_eq, any, arith}
use hashira_be_railway_deplo.Base.Hex.{hex_encode, hex_decode, cons_byte, hex_byte, hex_value}
use hashira_be_railway_deplo.Base.Strings.{to_lower_case}
use hashira_be_railway_deplo.Types.{ok}
use hashira_be_railway_deplo.Entities.{OtpToken}
use hashira_be_railway_deplo.World.{World}
use hashira_be_railway_deplo.Repositories.OtpTokens.{
  find_latest_otp_token, is_live_otp, mark_otp_used,
}
use hashira_be_railway_deplo.Auth.Otp.{
  OtpVerifyResult, authenticated, redeem_otp, verify_otp, admit,
}
use hashira_be_railway_deplo.Auth.Session.{payload_of}
use hashira_be_railway_deplo.Auth.Otp.Redeem.{Verified, verify_otp-Verified}
use hashira_be_railway_deplo.Auth.Otp.Attempts.{
  IsBounded, verify_otp-IsBounded, redeemed_never_found,
}
use hashira_be_railway_deplo.Samples.Rows.{find_greatest, find_first}
use hashira_be_railway_deplo.Samples.Services.{demo, start, ann, ann_code}

abbrev let_in : OtpVerifyResult
let_in =
    authenticated
      (record { session_token = ann.email; refresh_token = b't' ∷ 0 ∷ []; user = payload_of ann })

abbrev verified : World
verified = (verify_otp (str "Ann@x.io") (str "654321") start).1

verify_start : verify_otp (str "Ann@x.io") (str "654321") start ≡ (ok let_in, verified)
unfolding verify_otp find_greatest is_live_otp to_lower_case redeem_otp find_first admit any
    payload_of hex_encode hex_decode cons_byte hex_byte hex_value text_eq
verify_start = refl

verify_otp-Verified_example : Verified (str "Ann@x.io") (str "654321") let_in start verified
verify_otp-Verified_example =
    verify_otp-Verified (str "Ann@x.io") (str "654321") let_in start verified verify_start

-- A wrong code: the count of its row goes to two.
verify_otp-IsBounded_example :
    IsBounded (verify_otp (str "Ann@x.io") (str "000000") start).1.otp_tokens
verify_otp-IsBounded_example =
    verify_otp-IsBounded (str "Ann@x.io") (str "000000") start (tt, tt) (omega arith, tt)

-- Beside the redeemed code there is another one of the address.
abbrev other_code : OtpToken
other_code = record ann_code { id = 61; created_at = 2 }

abbrev two_codes : World
two_codes = record start { db = record start.db { otp_tokens = ann_code ∷ other_code ∷ [] } }

abbrev redeemed : World
redeemed = (redeem_otp ann_code (str "654321") two_codes).1

redeem_start : redeem_otp ann_code (str "654321") two_codes ≡ (ok tt, redeemed)
unfolding redeem_otp hex_encode hex_decode cons_byte hex_byte hex_value text_eq
redeem_start = refl

found_after :
    (find_latest_otp_token (hex_encode (str "ann@x.io")) redeemed).0 ≡ ok (some other_code)
unfolding find_latest_otp_token find_greatest redeem_otp is_live_otp mark_otp_used hex_encode
    hex_decode cons_byte hex_byte hex_value text_eq
found_after = refl

redeemed_never_found_example : other_code.id ≢ ann_code.id
redeemed_never_found_example =
    redeemed_never_found ann_code other_code (str "654321") (hex_encode (str "ann@x.io")) two_codes
      redeemed redeemed redeem_start refl found_after
