-- ===== src/Auth/SignedIn.antt =====
-- Whom src/services/auth/google-auth.service.ts lets in.
use hashira_be_railway_deplo.Base.{
  ◌==◌, ==_refl, ◌≡◌, refl, inl, inr, true, false, Option, some, none, [], ◌∷◌, Memᴰ, Text, arith,
  text_eq, text_eq_iff, Option-cases, Bool-cases,
}
use hashira_be_railway_deplo.Types.{ok}
use hashira_be_railway_deplo.Entities.{User}
use hashira_be_railway_deplo.Platform.{Platform, GoogleClaims}
use hashira_be_railway_deplo.World.{World}
use hashira_be_railway_deplo.World.Monad.{Result-cases}
use hashira_be_railway_deplo.Repositories.Sql.{same_text, update_where}
use hashira_be_railway_deplo.Repositories.Rows.{Memᴰ-update_where}
use hashira_be_railway_deplo.Repositories.Users.{
  save_user, update_user, find_user_by_email, find_user_by_google_sub, update_user_google_sub,
  count_active_users_by_org,
}
use hashira_be_railway_deplo.Repositories.Organisations.{find_org_by_id, org_where}
use hashira_be_railway_deplo.Repositories.Invitations.{
  find_invitation_by_token_hash, accept_invitation_and_create_user,
}
use hashira_be_railway_deplo.Auth.Session.{Session, payload_of}
use hashira_be_railway_deplo.Auth.Opened.{Opened, open_session-Opened}
use hashira_be_railway_deplo.Auth.Login.{suspended_org}
use hashira_be_railway_deplo.Auth.Google.{
  link_existing, find_known, register_invited, known_or_invited, create_google_session,
}
use hashira_be_railway_deplo.Auth.Seats.{Seated, register_invited-Seated}

same_text-some : (a : Option Text) (b : Text) → same_text a (some b) ≡ true → a ≡ some b
unfolding same_text
same_text-some none b h = ground arith
same_text-some (some a) b h = ground (arith, text_eq_iff a b)

module _ ⦃p : Platform⦄ where
  -- How an account of Google belongs to a user, and what is written: nothing after an earlier
  -- sign-in, the account to the rows of a user of the address that had none, or a new member.
  pub data Origin (claims : GoogleClaims) (sent : Option Text) (w w' : World) : User → Type 0 where
    returning :
        {user : User}
        → Memᴰ user w.users
        → user.google_sub ≡ some claims.sub
        → w' ≡ w
        → Origin claims sent w w' user
    linked :
        {user : User} (existing : User)
        → Memᴰ existing w.users
        → existing.email ≡ claims.email
        → existing.google_sub ≡ none
        → user ≡ record existing { google_sub = some claims.sub }
        → w' ≡ record w {
          db = record w.db {
            users =
                update_where
                  (λ u. u.user_id == existing.user_id)
                  (λ u. record u { google_sub = some claims.sub })
                  w.users;
          };
        }
        → Memᴰ user w'.users
        → Origin claims sent w w' user
    invited :
        {user : User} (token : Text)
        → sent ≡ some token
        → Seated token user w w'
        → user.email ≡ claims.email
        → Origin claims sent w w' user

  find_known-Origin :
      (claims : GoogleClaims) (sent : Option Text) (user : User) (w w' : World)
      → find_known claims (p.find_one (λ u. same_text u.google_sub (some claims.sub)) w.users) w
        ≡ (ok (some user), w')
      → Origin claims sent w w' user
  unfolding find_known link_existing find_user_by_email update_user_google_sub update_user
  find_known-Origin claims sent user w w' h =
      let by_sub = p.find_one (λ u. same_text u.google_sub (some claims.sub)) w.users in
      elim (Option-cases by_sub) [
        | inr (known, found) ↦
            let (listed, fit) = p.query.find_one-sound _ w.users known found in
            let same : known ≡ user = ground arith in
            Origin.returning (rw same at listed) (same_text-some _ _ (rw same at fit))
              (ground arith)
        | inl missed ↦
            elim (Option-cases (p.find_one (λ u. text_eq u.email claims.email) w.users)) [
              | inl nobody ↦ absurd (ground arith)
              | inr (existing, found) ↦
                  let (listed, fit) = p.query.find_one-sound _ w.users existing found in
                  elim (Option-cases existing.google_sub) [
                    | inr (other, taken) ↦ absurd (ground arith)
                    | inl free ↦
                        let own = λ (u : User). u.user_id == existing.user_id in
                        let link = λ (u : User). record u { google_sub = some claims.sub } in
                        let there =
                          Memᴰ-update_where own link w.users existing listed
                            (==_refl existing.user_id) in
                        let is : user ≡ link existing = ground arith in
                        let table : w' ≡ record w {
                          db = record w.db { users = update_where own link w.users };
                        } =
                          ground arith in
                        Origin.linked existing listed ((text_eq_iff _ _).0 fit) free is table
                          (rw (is, table) there)
                  ]
            ]
      ]

  find_known-organisations :
      (claims : GoogleClaims) (by_sub : Option User) (w : World)
      → (find_known claims by_sub w).1.organisations ≡ w.organisations
  unfolding find_known link_existing find_user_by_email update_user_google_sub update_user
  find_known-organisations claims (some user) w = refl
  find_known-organisations claims none w =
      elim (Option-cases (p.find_one (λ u. text_eq u.email claims.email) w.users)) [
        | inl nobody ↦ ground arith
        | inr (existing, found) ↦ elim (Option-cases existing.google_sub) [
          | inl free ↦ ground arith
          | inr (other, taken) ↦ ground arith
        ]
      ]

  find_known-none :
      (claims : GoogleClaims) (by_sub : Option User) (w w' : World)
      → find_known claims by_sub w ≡ (ok none, w')
      → w' ≡ w
  unfolding find_known link_existing find_user_by_email update_user_google_sub
  find_known-none claims (some user) w w' h = ground arith
  find_known-none claims none w w' h =
      elim (Option-cases (p.find_one (λ u. text_eq u.email claims.email) w.users)) [
        | inl nobody ↦ ground arith
        | inr (existing, found) ↦ elim (Option-cases existing.google_sub) [
          | inl free ↦ ground arith
          | inr (other, taken) ↦ ground arith
        ]
      ]

  register_invited-organisations :
      (claims : GoogleClaims) (token : Text) (w : World)
      → (register_invited claims token w).1.organisations ≡ w.organisations
  unfolding register_invited find_invitation_by_token_hash find_org_by_id count_active_users_by_org
      accept_invitation_and_create_user save_user
  register_invited-organisations claims token w = ground arith

  known_or_invited-Origin :
      (claims : GoogleClaims) (sent : Option Text) (known : Option User) (user : User)
      (w v w' : World)
      → ((u : User) → known ≡ some u → Origin claims sent w v u)
      → (known ≡ none → v ≡ w)
      → known_or_invited claims sent known v ≡ (ok user, w')
      → Origin claims sent w w' user × (w'.organisations ≡ v.organisations)
  unfolding known_or_invited
  known_or_invited-Origin claims sent (some u) user w v w' from same h =
      let is : u ≡ user = ground arith in
      let stays : v ≡ w' = ground arith in (rw (is, stays) at (from u refl), ground arith)
  known_or_invited-Origin claims none none user w v w' from same h = absurd (ground arith)
  known_or_invited-Origin claims (some []) none user w v w' from same h = absurd (ground arith)
  known_or_invited-Origin claims (some (c ∷ cs)) none user w v w' from same h =
      let began = same refl in
      let (seated, address) = register_invited-Seated claims (c ∷ cs) user v w' h in
      let kept = register_invited-organisations claims (c ∷ cs) v in
      (Origin.invited (c ∷ cs) refl (rw began at seated) address, ground (arith, kept, h))

  pub record SignedIn (id_token : Text) (sent : Option Text) (s : Session) (w w' : World)
      : Type 0 where
    pub claims : GoogleClaims
    pub user : User
    pub between : World
    pub verified : p.google_verify id_token w.now ≡ some claims
    pub proven : claims.email_verified ≡ true
    pub origin : Origin claims sent w between user
    pub standing : suspended_org (p.find_one (org_where user.org_id) w.organisations) ≡ false
    pub opened : Opened (payload_of user) s between w'

  -- A sign-in with Google that returns has a token that verifies, with a verified address. Its user
  -- is one with this Google account already, and nothing else is written; or a user of the address
  -- that had none, and this one is written to its row; or one that joins by the invitation that was
  -- sent, within the limit of its organisation.
  -- The organisation that the database finds for the user is not suspended, the session is the
  -- user's, and only the hash of its refresh token is stored.
  pub create_google_session-SignedIn :
      (id_token : Text) (sent : Option Text) (s : Session) (w w' : World)
      → create_google_session id_token sent w ≡ (ok s, w')
      → SignedIn id_token sent s w w'
  unfolding create_google_session find_user_by_google_sub find_org_by_id
  create_google_session-SignedIn id_token sent s w w' h =
      elim (Option-cases (p.google_verify id_token w.now)) [
        | inl refused ↦ absurd (ground arith)
        | inr (claims, verified) ↦ elim (Bool-cases claims.email_verified) [
          | inr unproven ↦ absurd (ground arith)
          | inl proven ↦
              let by_sub = p.find_one (λ u. same_text u.google_sub (some claims.sub)) w.users in
              elim (Result-cases (find_known claims by_sub w).0) [
                | inr (e, failed) ↦ absurd (ground arith)
                | inl (known, looked) ↦
                    let v = (find_known claims by_sub w).1 in
                    elim (Result-cases (known_or_invited claims sent known v).0) [
                      | inr (e, failed) ↦ absurd (ground arith)
                      | inl (user, found) ↦
                          let between = (known_or_invited claims sent known v).1 in
                          let (origin, kept) =
                            known_or_invited-Origin claims sent known user w v between
                              (λ u is. find_known-Origin claims sent u w v (ground arith))
                              (λ is. find_known-none claims by_sub w v (ground arith))
                              (ground arith) in
                          let all : between.organisations ≡ w.organisations =
                            ground (arith, kept, find_known-organisations claims by_sub w) in
                          let org = p.find_one (org_where user.org_id) between.organisations in
                          elim (Bool-cases (suspended_org org)) [
                            | inl suspended ↦ absurd (ground arith)
                            | inr standing ↦ record {
                              claims = claims;
                              user = user;
                              between = between;
                              verified = verified;
                              proven = proven;
                              origin = origin;
                              standing = rw all at standing;
                              opened =
                                  open_session-Opened (payload_of user) s between w' (ground arith);
                            }
                          ]
                    ]
              ]
        ]
      ]
