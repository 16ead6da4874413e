-- ===== src/Auth/PasswordReset/Confirmed.antt =====
-- What a confirmed password reset has checked and written, and that its code works once.
use hashira_be_railway_deplo.Base.{
  ℕ, ◌≡◌, ◌≢◌, refl, sym, ap, ◌∙◌, inl, inr, true, false, some, List, ◌++◌, Memᴰ, Text, All, arith,
  Option-cases, Bool-cases, text_eq, text_eq_iff, ◌==◌, is_some,
}
use hashira_be_railway_deplo.Base.Strings.{to_lower_case}
use hashira_be_railway_deplo.Types.{ok}
use hashira_be_railway_deplo.Entities.{User, PasswordResetToken}
use hashira_be_railway_deplo.Platform.{Platform}
use hashira_be_railway_deplo.World.{World}
use hashira_be_railway_deplo.Repositories.Sql.{update_where}
use hashira_be_railway_deplo.Repositories.Rows.{
  All-mem, Distinct, Distinct-mem, All-update_where_rows,
}
use hashira_be_railway_deplo.Repositories.Users.{find_user_by_email, update_user}
use hashira_be_railway_deplo.Repositories.PasswordResetTokens.{
  is_live_reset, mark_reset_used, find_password_reset_token, apply_password_reset,
}
use hashira_be_railway_deplo.Auth.Attempts.Laws.{lockout-cases}
use hashira_be_railway_deplo.Auth.PasswordReset.{
  confirm_reset, with_password, confirm_attempt_limit, confirm_attempt_window_ms,
}

module _ ⦃p : Platform⦄ where
  abbrev pub reset_hash : Text → Text → Text
  reset_hash email otp = p.sha256 (to_lower_case email ++ otp)

  pub record Confirmed (email otp new_password : Text) (w w' : World) : Type 0 where
    pub token : PasswordResetToken
    pub user : User
    pub listed : Memᴰ token w.password_reset_tokens
    pub live : is_live_reset (reset_hash email otp) w.now token ≡ true
    pub registered : Memᴰ user w.users
    pub address : user.email ≡ email
    pub had_password : is_some user.password_hash ≡ true
    pub users :
        w'.users
        ≡ update_where
            (λ u. u.user_id == user.user_id)
            (λ u. record u { password_hash = some (p.bcrypt_hash w.calls new_password) })
            w.users
    pub tokens :
        w'.password_reset_tokens
        ≡ update_where (λ t. t.token_id == token.token_id) mark_reset_used w.password_reset_tokens

  -- A reset that returns has found a live code for what was sent, of the address, and a user of the
  -- address who has a password; it has given the rows with that user's id the hash of the new
  -- password and changed no other user, and has marked the code used.
  pub confirm_reset-Confirmed :
      (email otp new_password : Text) (w w' : World)
      → confirm_reset email otp new_password w ≡ (ok tt, w')
      → Confirmed email otp new_password w w'
  unfolding confirm_reset find_password_reset_token find_user_by_email with_password
      apply_password_reset update_user
  confirm_reset-Confirmed email otp new_password w w' h =
      elim (lockout-cases confirm_attempt_limit confirm_attempt_window_ms (to_lower_case email)
        w.now w.confirm_failed_attempts) [
          | inr (s, refused) ↦ absurd (ground arith)
          | inl allowed ↦
              elim (Option-cases
                (p.find_one (is_live_reset (reset_hash email otp) w.now) w.password_reset_tokens)) [
                  | inl missed ↦ absurd (ground arith)
                  | inr (token, found) ↦
                      elim (Option-cases (p.find_one (λ u. text_eq u.email email) w.users)) [
                        | inl unknown ↦ absurd (ground arith)
                        | inr (user, looked) ↦ elim (Bool-cases (is_some user.password_hash)) [
                          | inr bare ↦ absurd (ground arith)
                          | inl had ↦
                              let (listed, live) =
                                p.query.find_one-sound _ w.password_reset_tokens token found in
                              let (registered, fit) =
                                p.query.find_one-sound _ w.users user looked in
                              record {
                                token = token;
                                user = user;
                                listed = listed;
                                live = live;
                                registered = registered;
                                address = (text_eq_iff _ _).0 fit;
                                had_password = had;
                                users = ground arith;
                                tokens = ground arith;
                              }
                        ]
                      ]
                ]
        ]

not-live_of_used :
    (token_hash : Text) (now : ℕ) (t : PasswordResetToken)
    → t.used ≡ true
    → is_live_reset token_hash now t ≡ false
unfolding is_live_reset
not-live_of_used token_hash now t used = ground arith

token_hash-of_live :
    (token_hash : Text) (now : ℕ) (t : PasswordResetToken)
    → is_live_reset token_hash now t ≡ true
    → t.token_hash ≡ token_hash
unfolding is_live_reset
token_hash-of_live token_hash now t live = ground (arith, text_eq_iff t.token_hash token_hash)

-- Marking the row of a code uses up its hash, where no two rows share theirs.
spent :
    (rows : List PasswordResetToken) (e : PasswordResetToken)
    → Distinct (λ t. t.token_hash) rows
    → Memᴰ e rows
    → All
        (λ t. t.token_hash ≡ e.token_hash → t.used ≡ true)
        (update_where (λ t. t.token_id == e.token_id) mark_reset_used rows)
unfolding mark_reset_used
spent rows e unique listed =
    All-update_where_rows (λ t. t.token_hash ≡ e.token_hash → t ≡ e)
      (λ t. t.token_hash ≡ e.token_hash → t.used ≡ true) (λ t. t.token_id == e.token_id)
      mark_reset_used rows (λ t same hit eq. refl)
      (λ t same miss eq.
        absurd (ground (arith, ap (λ (o : PasswordResetToken). o.token_id) (same eq))))
      (Distinct-mem (λ t. t.token_hash) rows e unique listed)

module _ ⦃p : Platform⦄ where
  -- A reset code works once: where the hashes of reset codes are unique, after a reset that returned,
  -- no reset with the same address and code returns, whatever the password, at any time at which the
  -- table of reset codes is as the first one left it.
  pub confirm_reset_single_use :
      (email otp first second : Text) (w w' later last : World)
      → Distinct (λ t. t.token_hash) w.password_reset_tokens
      → confirm_reset email otp first w ≡ (ok tt, w')
      → later.password_reset_tokens ≡ w'.password_reset_tokens
      → confirm_reset email otp second later ≢ (ok tt, last)
  confirm_reset_single_use email otp first second w w' later last unique done same again =
      let a = confirm_reset-Confirmed email otp first w w' done in
      let b = confirm_reset-Confirmed email otp second later last again in
      let hash_a = token_hash-of_live (reset_hash email otp) w.now a.token a.live in
      let hash_b = token_hash-of_live (reset_hash email otp) later.now b.token b.live in
      let used =
        All-mem (λ (t : PasswordResetToken). t.token_hash ≡ a.token.token_hash → t.used ≡ true)
          (spent w.password_reset_tokens a.token unique a.listed) (rw (same, a.tokens) at b.listed)
          (hash_b ∙ sym hash_a) in
      cc (not-live_of_used (reset_hash email otp) later.now b.token used, b.live)
