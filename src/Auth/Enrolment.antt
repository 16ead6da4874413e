-- ===== src/Auth/Enrolment.antt =====
-- A second factor that src/services/auth/mfa.service.ts sets up can be confirmed.
use hashira_be_railway_deplo.Base.{
  ◌≡◌, refl, ap, ◌∙◌, inl, inr, true, false, some, none, List, [], ◌∷◌, Memᴰ, Text, arith, All,
  Option-cases, ◌==◌, ==_iff, ◌+◌,
}
use hashira_be_railway_deplo.Base.Strings.{truthy, split}
use hashira_be_railway_deplo.Types.{ok}
use hashira_be_railway_deplo.Entities.{Uuid, User}
use hashira_be_railway_deplo.Platform.{Platform}
use hashira_be_railway_deplo.World.{World}
use hashira_be_railway_deplo.World.Monad.{Result-cases}
use hashira_be_railway_deplo.Repositories.Sql.{update_where}
use hashira_be_railway_deplo.Repositories.Rows.{All-mem, All-update_where_every, Memᴰ-update_where}
use hashira_be_railway_deplo.Repositories.Users.{find_user_by_id, update_user}
use hashira_be_railway_deplo.Crypto.Cipher.{CipherLaws, is_well_formed}
use hashira_be_railway_deplo.Crypto.Totp.{encrypt_totp, decrypt_totp, open_totp}
use hashira_be_railway_deplo.Crypto.TotpOpened.{decrypt_totp-encrypt_totp}
use hashira_be_railway_deplo.Auth.Mfa.{
  MfaSetupResult, get_user_or_throw, require_totp, setup_mfa, confirm_mfa,
}

module _ ⦃p : Platform⦄ where
  -- Every row of the user has the encrypted secret as the pending one.
  Pending : Uuid → Text → List User → Type 0
  Pending user_id stored = All (λ u. u.user_id ≡ user_id → u.totp_secret_pending ≡ some stored)

  encrypt_totp-users : (secret : Text) (w : World) → (encrypt_totp secret w).1.users ≡ w.users
  unfolding encrypt_totp
  encrypt_totp-users secret w = refl

  -- What was stored is not the empty text.
  truthy_stored :
      (stored secret : Text) (w : World)
      → decrypt_totp stored w ≡ (ok secret, w)
      → truthy (some stored) ≡ some stored
  unfolding decrypt_totp open_totp split
  truthy_stored [] secret w h = absurd (ground arith)
  truthy_stored (c ∷ cs) secret w h = refl

  -- What a setup that returns leaves: the secret that it drew, encrypted.
  setup_mfa-Pending :
      (user_id : Uuid) (r : MfaSetupResult) (w w' : World)
      → setup_mfa user_id w ≡ (ok r, w')
      → (v : World) × (stored : Text) × ((encrypt_totp (p.totp_secret w.calls) v).0 ≡ ok stored)
        × Pending user_id stored w'.users
        × ((user : User) × Memᴰ user w'.users × (user.user_id ≡ user_id))
  unfolding setup_mfa get_user_or_throw update_user find_user_by_id Pending
  setup_mfa-Pending user_id r w w' h =
      elim (Option-cases (p.find_one (λ u. u.user_id == user_id) w.users)) [
        | inl missed ↦ absurd (ground arith)
        | inr (user, found) ↦
            let (listed, fit) = p.query.find_one-sound _ w.users user found in
            let v = record w { calls = w.calls + 1 } in
            elim (Result-cases (encrypt_totp (p.totp_secret w.calls) v).0) [
              | inr (e, failed) ↦ absurd (ground arith)
              | inl (stored, sealed) ↦
                  let change : User → User = λ u. record u { totp_secret_pending = some stored } in
                  let same : w'.users ≡ update_where (λ u. u.user_id == user_id) change w.users =
                    ground (arith, encrypt_totp-users (p.totp_secret w.calls) v) in
                  (
                    v,
                    stored,
                    sealed,
                    rw same (
                        All-update_where_every
                          (λ u. u.user_id ≡ user_id → u.totp_secret_pending ≡ some stored)
                          (λ u. u.user_id == user_id) change w.users (λ u hit is. refl)
                          (λ u miss is. absurd (ground (arith, ==_iff u.user_id user_id)))),
                    (
                      change user,
                      rw same (
                          Memᴰ-update_where (λ u. u.user_id == user_id) change w.users user listed
                            fit),
                      (==_iff user.user_id user_id).0 fit,
                    ),
                  )
            ]
      ]

  confirm_mfa-Pending :
      (user_id : Uuid) (user : User) (stored secret totp_code : Text) (w : World)
      → p.find_one (λ u. u.user_id == user_id) w.users ≡ some user
      → truthy user.totp_secret_pending ≡ some stored
      → decrypt_totp stored w ≡ (ok secret, w)
      → p.totp_verify totp_code secret w.now ≡ true
      → ((confirm_mfa user_id totp_code w).0 ≡ ok tt)
        × All
            (λ u. u.user_id ≡ user_id → u.mfa_enabled ≡ true)
            (confirm_mfa user_id totp_code w).1.users
  unfolding confirm_mfa get_user_or_throw require_totp update_user find_user_by_id
  confirm_mfa-Pending user_id user stored secret totp_code w found pending opened verified =
      let change : User → User = λ u. record u {
        totp_secret = user.totp_secret_pending;
        totp_secret_pending = none;
        mfa_enabled = true;
      } in
      let same : (confirm_mfa user_id totp_code w).1.users
          ≡ update_where (λ u. u.user_id == user_id) change w.users =
        ground arith in
      (
        ground arith,
        rw same (
            All-update_where_every (λ u. u.user_id ≡ user_id → u.mfa_enabled ≡ true)
              (λ u. u.user_id == user_id) change w.users (λ u hit is. refl)
              (λ u miss is. absurd (ground (arith, ==_iff u.user_id user_id)))),
      )

  -- With a cipher that opens what it seals, after a setup that returned, a code that fits the secret
  -- that was drawn confirms it in any later state with the same users: the call returns, and every
  -- row of the user has two-factor login on.
  pub confirm_mfa-setup_mfa :
      (user_id : Uuid) (totp_code : Text) (r : MfaSetupResult) (w w' later : World)
      → CipherLaws p
      → is_well_formed (p.totp_secret w.calls) ≡ true
      → setup_mfa user_id w ≡ (ok r, w')
      → later.users ≡ w'.users
      → p.totp_verify totp_code (p.totp_secret w.calls) later.now ≡ true
      → ((confirm_mfa user_id totp_code later).0 ≡ ok tt)
        × All
            (λ u. u.user_id ≡ user_id → u.mfa_enabled ≡ true)
            (confirm_mfa user_id totp_code later).1.users
  unfolding Pending
  confirm_mfa-setup_mfa user_id totp_code r w w' later laws proper done same verified =
      let secret = p.totp_secret w.calls in
      let (v, stored, sealed, pending, (known, there, id)) =
        setup_mfa-Pending user_id r w w' done in
      let (again, sealed2, opened) = decrypt_totp-encrypt_totp secret v later laws proper in
      let equal : again ≡ stored = ground arith in
      let opens = rw equal at opened in
      let here : All (λ u. u.user_id ≡ user_id → u.totp_secret_pending ≡ some stored) later.users =
        rw same pending in
      elim (Option-cases (p.find_one (λ u. u.user_id == user_id) later.users)) [
        | inl missed ↦
            let still : Memᴰ known later.users = rw same there in
            let differs : (known.user_id == user_id) ≡ false =
              All-mem (λ u. (u.user_id == user_id) ≡ false)
                (p.query.find_one-complete _ later.users missed) still in
            absurd (ground (arith, ==_iff known.user_id user_id))
        | inr (user, found) ↦
            let (listed, fit) = p.query.find_one-sound _ later.users user found in
            let has =
              All-mem (λ u. u.user_id ≡ user_id → u.totp_secret_pending ≡ some stored) here listed
                ((==_iff user.user_id user_id).0 fit) in
            confirm_mfa-Pending user_id user stored secret totp_code later found
              (ap truthy has ∙ truthy_stored stored secret later opens) opens verified
      ]
