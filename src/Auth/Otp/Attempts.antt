-- ===== src/Auth/Otp/Attempts.antt =====
-- The life of a row of src/entities/otp-token.entity.ts under verification: a redeemed code is never
-- found again, and no code takes more than five wrong tries.
use mathlib.Core.Path.{subst}
use hashira_be_railway_deplo.Base.{
  ℕ, ◌<◌, ◌≤◌, ◌≡◌, ◌≢◌, refl, sym, ap, inl, inr, true, false, some, List, Memᴰ, All, Text, text_eq,
  ==_iff, Option-cases, arith, ◌==◌, All-both,
}
use hashira_be_railway_deplo.Base.Strings.{to_lower_case}
use hashira_be_railway_deplo.Types.{ok}
use hashira_be_railway_deplo.Entities.{Date, User, OtpToken}
use hashira_be_railway_deplo.Platform.{Platform}
use hashira_be_railway_deplo.World.{World}
use hashira_be_railway_deplo.World.Monad.{Result-cases}
use hashira_be_railway_deplo.Repositories.Sql.{update_where}
use hashira_be_railway_deplo.Repositories.Rows.{
  All-mem, All-update_where_every, All-update_where_rows, Distinct, Distinct-mem,
}
use hashira_be_railway_deplo.Repositories.OtpTokens.{
  is_live_otp, mark_otp_used, add_attempt, find_latest_otp_token,
}
use hashira_be_railway_deplo.Auth.Otp.{redeem_otp, admit, verify_otp}
use hashira_be_railway_deplo.Auth.Otp.Redeem.{redeem_otp-Redeemed, redeem_otp-table}

used_not_live :
    (email_hash : Text) (now : Date) (t : OtpToken)
    → t.used ≡ true
    → is_live_otp email_hash now t ≡ false
unfolding is_live_otp
used_not_live email_hash now t used = ground arith

-- No two rows share their key.
abbrev pub HasUniqueIds : List OtpToken → Type 0
HasUniqueIds = Distinct (λ t. t.id)

-- No row has counted more than five wrong tries.
abbrev pub IsBounded : List OtpToken → Type 0
IsBounded = All (λ t. t.attempts ≤ 5)

marked_used :
    (id : ℕ) (rows : List OtpToken)
    → All (λ t. t.id ≡ id → t.used ≡ true) (update_where (λ t. t.id == id) mark_otp_used rows)
unfolding mark_otp_used
marked_used id rows =
    All-update_where_every (λ t. t.id ≡ id → t.used ≡ true) (λ t. t.id == id) mark_otp_used rows
      (λ t hit eq. refl) (λ t miss eq. absurd (ground arith))

IsBounded-mark :
    (id : ℕ) (rows : List OtpToken)
    → IsBounded rows
    → IsBounded (update_where (λ t. t.id == id) mark_otp_used rows)
unfolding mark_otp_used
IsBounded-mark id rows h =
    All-update_where_rows (λ t. t.attempts ≤ 5) (λ t. t.attempts ≤ 5) (λ t. t.id == id)
      mark_otp_used rows (λ t b hit. b) (λ t b miss. b) h

IsBounded-add_attempt :
    (token : OtpToken) (rows : List OtpToken)
    → HasUniqueIds rows
    → Memᴰ token rows
    → token.attempts < 5
    → IsBounded rows
    → IsBounded (update_where (λ t. t.id == token.id) add_attempt rows)
unfolding add_attempt
IsBounded-add_attempt token rows unique listed below h =
    All-update_where_rows (λ t. (t.id ≡ token.id → t ≡ token) × (t.attempts ≤ 5))
      (λ t. t.attempts ≤ 5) (λ t. t.id == token.id) add_attempt rows
      (λ t facts hit.
        ground (arith, ap (λ (o : OtpToken). o.attempts) (facts.0 ((==_iff _ _).0 hit))))
      (λ t facts miss. facts.1)
      (All-both _ _ rows (Distinct-mem (λ (t : OtpToken). t.id) rows token unique listed) h)

module _ ⦃p : Platform⦄ where
  -- Once a redemption of a code has returned, a row that the lookup of the latest code finds has
  -- another id, for any address and at any time at which the table of codes is as the redemption
  -- left it.
  pub redeemed_never_found :
      (token t : OtpToken) (otp email_hash : Text) (w w' later : World)
      → redeem_otp token otp w ≡ (ok tt, w')
      → later.otp_tokens ≡ w'.otp_tokens
      → (find_latest_otp_token email_hash later).0 ≡ ok (some t)
      → t.id ≢ token.id
  unfolding find_latest_otp_token
  redeemed_never_found token t otp email_hash w w' later redeemed same found eq =
      let c = redeem_otp-Redeemed token otp w w' redeemed in
      let (listed, live, _) =
        p.query.find_latest-sound (λ o. o.created_at) (is_live_otp email_hash later.now)
          later.otp_tokens t (ground arith) in
      let used : t.used ≡ true =
        All-mem (λ (o : OtpToken). o.id ≡ token.id → o.used ≡ true)
          (rw (same, c.state) (marked_used token.id w.otp_tokens)) listed eq in
      cc (used_not_live email_hash later.now t used)

  redeem_otp-IsBounded :
      (token : OtpToken) (otp : Text) (w : World)
      → HasUniqueIds w.otp_tokens
      → Memᴰ token w.otp_tokens
      → IsBounded w.otp_tokens
      → IsBounded (redeem_otp token otp w).1.otp_tokens
  redeem_otp-IsBounded token otp w unique listed h = elim (redeem_otp-table token otp w) [
    | inl same ↦ subst IsBounded (sym same) h
    | inr (inl marked) ↦ subst IsBounded (sym marked) (IsBounded-mark token.id w.otp_tokens h)
    | inr (inr (below, counted)) ↦
        subst IsBounded (sym counted)
          (IsBounded-add_attempt token w.otp_tokens unique listed below h)
  ]

  admit-otp_tokens : (user : User) (w : World) → (admit user w).1.otp_tokens ≡ w.otp_tokens
  unfolding admit
  admit-otp_tokens user w = ground arith

  -- After the redemption a verification leaves the table of codes alone.
  verify_otp-otp_tokens :
      (email otp : Text) (token : OtpToken) (w : World)
      → p.find_latest
          (λ t. t.created_at)
          (is_live_otp (p.sha256 (to_lower_case email)) w.now)
          w.otp_tokens
        ≡ some token
      → (verify_otp email otp w).1.otp_tokens ≡ (redeem_otp token otp w).1.otp_tokens
  unfolding verify_otp
  verify_otp-otp_tokens email otp token w found = elim (Result-cases (redeem_otp token otp w).0) [
    | inr (e, failed) ↦ ground arith
    | inl (_, redeemed) ↦
        let v = (redeem_otp token otp w).1 in
        elim (Option-cases (p.find_one (λ u. text_eq u.email email) v.users)) [
          | inl unknown ↦ ground arith
          | inr (user, looked) ↦ ground (arith, admit-otp_tokens user v)
        ]
  ]

  -- No code counts more than five wrong tries: if the ids of codes are unique and no row counts
  -- more than five, none does after a verification, however it ends.
  pub verify_otp-IsBounded :
      (email otp : Text) (w : World)
      → HasUniqueIds w.otp_tokens
      → IsBounded w.otp_tokens
      → IsBounded (verify_otp email otp w).1.otp_tokens
  unfolding verify_otp
  verify_otp-IsBounded email otp w unique h =
      let fits = is_live_otp (p.sha256 (to_lower_case email)) w.now in
      elim (Option-cases (p.find_latest (λ t. t.created_at) fits w.otp_tokens)) [
        | inl missed ↦
            let same : (verify_otp email otp w).1.otp_tokens ≡ w.otp_tokens = ground arith in
            subst IsBounded (sym same) h
        | inr (token, found) ↦
            let (listed, _, _) =
              p.query.find_latest-sound (λ t. t.created_at) fits w.otp_tokens token found in
            let v = (redeem_otp token otp w).1 in
            let same : (verify_otp email otp w).1.otp_tokens ≡ v.otp_tokens =
              verify_otp-otp_tokens email otp token w found in
            subst IsBounded (sym same) (redeem_otp-IsBounded token otp w unique listed h)
      ]
