-- ===== src/Auth/Otp/Redeem.antt =====
-- Who gets past src/services/auth/otp.service.ts, and how often a code can be tried.
use mathlib.Core.Path.{subst}
use hashira_be_railway_deplo.Base.{
  ◌<◌, ◌≤◌, ◌≡◌, refl, ◌⊎◌, inl, inr, true, false, Memᴰ, All, Text, text_eq, text_eq_iff, length,
  Bool-cases, Option-cases, arith, ◌==◌, leb,
}
use hashira_be_railway_deplo.Base.Hex.{hex_decode}
use hashira_be_railway_deplo.Base.Strings.{to_lower_case}
use hashira_be_railway_deplo.Types.{ok, UserStatus}
use hashira_be_railway_deplo.Entities.{User, OtpToken}
use hashira_be_railway_deplo.Platform.{Platform}
use hashira_be_railway_deplo.World.{World}
use hashira_be_railway_deplo.World.Monad.{Result-cases}
use hashira_be_railway_deplo.Repositories.Organisations.{org_where}
use hashira_be_railway_deplo.Auth.Session.{Session, payload_of}
use hashira_be_railway_deplo.Repositories.Sql.{update_where}
use hashira_be_railway_deplo.Repositories.OtpTokens.{is_live_otp, mark_otp_used, add_attempt}
use hashira_be_railway_deplo.Auth.Login.{suspended_org}
use hashira_be_railway_deplo.Auth.Otp.{
  OtpVerifyResult, mfa_required, authenticated, redeem_otp, admit, verify_otp,
}

module _ ⦃p : Platform⦄ where
  -- A code was redeemed: the token was below the limit, the hashes agree byte for byte, and the only
  -- change is that the token is used.
  pub record Redeemed (token : OtpToken) (otp : Text) (w w' : World) : Type 0 where
    pub below : token.attempts < 5
    pub same_code : hex_decode token.otp_hash ≡ hex_decode (p.sha256 otp)
    pub state : w' ≡ record w {
      db = record w.db {
        otp_tokens = update_where (λ t. t.id == token.id) mark_otp_used w.otp_tokens;
      };
    }

  pub redeem_otp-Redeemed :
      (token : OtpToken) (otp : Text) (w w' : World)
      → redeem_otp token otp w ≡ (ok tt, w')
      → Redeemed token otp w w'
  unfolding redeem_otp
  redeem_otp-Redeemed token otp w w' h = record {
    below = ground arith;
    same_code = ground (arith, text_eq_iff (hex_decode token.otp_hash) (hex_decode (p.sha256 otp)));
    state = ground arith;
  }

  -- What any call does to the table of codes, however it ends.
  pub redeem_otp-table :
      (token : OtpToken) (otp : Text) (w : World)
      → let rows = (redeem_otp token otp w).1.otp_tokens in
        (rows ≡ w.otp_tokens)
        ⊎ (rows ≡ update_where (λ t. t.id == token.id) mark_otp_used w.otp_tokens)
        ⊎ ((token.attempts < 5)
            × (rows ≡ update_where (λ t. t.id == token.id) add_attempt w.otp_tokens))
  unfolding redeem_otp
  redeem_otp-table token otp w = elim (Bool-cases (leb 5 token.attempts)) [
    | inl full ↦ inl (ground arith)
    | inr room ↦
        let stored = hex_decode token.otp_hash in
        let computed = hex_decode (p.sha256 otp) in
        elim (Bool-cases (length stored == length computed)) [
          | inr uneven ↦ inl (ground arith)
          | inl even ↦ elim (Bool-cases (text_eq stored computed)) [
            | inl same ↦ inr (inl (ground arith))
            | inr other ↦ inr (inr (ground arith, ground arith))
          ]
        ]
  ]

  -- Someone was admitted: an active user of an organisation that the database does not show as
  -- suspended; a session was opened exactly if two-factor login is off.
  pub record Admitted (user : User) (result : OtpVerifyResult) (w w' : World) : Type 0 where
    pub active : user.status ≡ UserStatus.active
    pub standing : suspended_org (p.find_one (org_where user.org_id) w.organisations) ≡ false
    pub second_factor : user.mfa_enabled ≡ true → (result ≡ mfa_required) × (w' ≡ w)
    pub session :
        user.mfa_enabled ≡ false
        → (s : Session) × (result ≡ authenticated s)
          × (s.user ≡ payload_of user)
          × (s.session_token ≡ p.jwt_sign (payload_of user) w.now)

  admit-Admitted :
      (user : User) (result : OtpVerifyResult) (w w' : World)
      → admit user w ≡ (ok result, w')
      → Admitted user result w w'
  unfolding admit
  admit-Admitted user result w w' h = record {
    active = ground arith;
    standing = ground arith;
    second_factor = λ on. ground arith;
    session = λ off. (
      record {
        session_token = p.jwt_sign (payload_of user) w.now;
        refresh_token = p.random_token w.calls;
        user = payload_of user;
      },
      ground arith,
      refl,
      refl,
    );
  }

  -- What a successful verification has checked, step by step.
  pub record Verified (email otp : Text) (result : OtpVerifyResult) (w w' : World) : Type 0 where
    pub token : OtpToken
    pub user : User
    pub between : World
    pub listed : Memᴰ token w.otp_tokens
    pub live : is_live_otp (p.sha256 (to_lower_case email)) w.now token ≡ true
    pub latest :
        All
          (λ o.
            is_live_otp (p.sha256 (to_lower_case email)) w.now o ≡ true
            → o.created_at ≤ token.created_at)
          w.otp_tokens
    pub redeemed : Redeemed token otp w between
    pub registered : Memᴰ user w.users
    pub address : user.email ≡ email
    pub admitted : Admitted user result between w'

  -- A verification that returns has found the newest of the live codes of the address, with fewer
  -- than five wrong tries, and the code that was sent has its hash; it has marked that code used, and
  -- admits an active user of the address: with two-factor login it opens no session and changes
  -- nothing more, and without it the answer is a session of that user.
  pub verify_otp-Verified :
      (email otp : Text) (result : OtpVerifyResult) (w w' : World)
      → verify_otp email otp w ≡ (ok result, w')
      → Verified email otp result w w'
  unfolding verify_otp
  verify_otp-Verified email otp result w w' h =
      let fits = is_live_otp (p.sha256 (to_lower_case email)) w.now in
      elim (Option-cases (p.find_latest (λ t. t.created_at) fits w.otp_tokens)) [
        | inl missed ↦ absurd (ground arith)
        | inr (token, found) ↦
            let (listed, live, latest) =
              p.query.find_latest-sound (λ t. t.created_at) fits w.otp_tokens token found in
            elim (Result-cases (redeem_otp token otp w).0) [
              | inr (e, failed) ↦ absurd (ground arith)
              | inl (_, redeemed) ↦
                  let v = (redeem_otp token otp w).1 in
                  elim (Option-cases (p.find_one (λ u. text_eq u.email email) v.users)) [
                    | inl unknown ↦ absurd (ground arith)
                    | inr (user, looked) ↦
                        let (registered, fit) = p.query.find_one-sound _ v.users user looked in
                        let c = redeem_otp-Redeemed token otp w v (ground arith) in
                        record {
                          token = token;
                          user = user;
                          between = v;
                          listed = listed;
                          live = live;
                          latest = latest;
                          redeemed = c;
                          registered = subst (λ (x : World). Memᴰ user x.users) c.state registered;
                          address = (text_eq_iff _ _).0 fit;
                          admitted = admit-Admitted user result v w' (ground arith);
                        }
                  ]
            ]
      ]
