-- ===== src/Organisations/Signup.antt =====
-- What a signup with src/services/organisation/organisation.service.ts leaves behind, however it ends.
use mathlib.Core.Path.{subst}
use hashira_be_railway_deplo.Base.{
  ◌+◌, ◌≡◌, ap, inl, inr, true, false, some, none, [], ◌∷◌, ◌++◌, Text, arith, text_eq, any, All,
  Option-cases, Bool-cases, if◌then◌else◌,
}
use hashira_be_railway_deplo.Types.{ok}
use hashira_be_railway_deplo.Entities.{User}
use hashira_be_railway_deplo.Platform.{Platform, JwtPayload}
use hashira_be_railway_deplo.World.{World, activate_org}
use hashira_be_railway_deplo.World.Monad.{Result-cases, >>=-cases, pure, ◌>>=◌}
use hashira_be_railway_deplo.Repositories.Organisations.{
  CreateOrgWithAdminInput, CreateOrgWithAdminResult, create_org_with_admin, find_org_by_name,
}
use hashira_be_railway_deplo.Repositories.Users.{find_user_by_email}
use hashira_be_railway_deplo.Auth.Session.{open_session}
use hashira_be_railway_deplo.Auth.Opened.{open_session-Opened}
use hashira_be_railway_deplo.Organisations.Service.{
  CreateOrgBody, CreateOrgResult, Admin, choose_admin, find_registered, checkout_url,
  schedule_activation, admin_payload, open_account, finish_signup, create_org,
}
use hashira_be_railway_deplo.Organisations.Created.{
  new_org, new_admin, Quiet, Made, Chosen, choose_admin-Quiet, checkout_url-Quiet,
  create_org_with_admin-Made, choose_admin-Chosen,
}

module _ ⦃p : Platform⦄ where
  -- What a signup that returns has checked and written.
  pub record Created (body : CreateOrgBody) (r : CreateOrgResult) (w w' : World) : Type 0 where
    pub input : CreateOrgWithAdminInput
    pub user : User
    pub chosen : Chosen body w (record {
      admin_email = some input.admin_email;
      password_hash = input.password_hash;
      google_sub = input.google_sub;
    })
    pub name_free : All (λ o. text_eq o.name body.org_name ≡ false) w.organisations
    pub address_free : All (λ u. text_eq u.email input.admin_email ≡ false) w.users
    pub org : r.org ≡ new_org body.org_name r.org.org_id w.now
    pub admin : user ≡ new_admin input r.org.org_id user.user_id w.now
    pub organisations : w'.organisations ≡ w.organisations ++ r.org ∷ []
    pub users : w'.users ≡ w.users ++ user ∷ []
    pub session_user : r.session.user.user_id ≡ user.user_id
    pub session_org : r.session.user.org_id ≡ some r.org.org_id
    pub scheduled : w'.tasks ≡ (
        if p.production then w.tasks else w.tasks ++ activate_org r.org.org_id (w.now + 5000) ∷ [])

  -- The tables of organisations and users and the tasks are as they were.
  abbrev Keeps : World → World → Type 0
  Keeps w w' = (w'.organisations ≡ w.organisations) × (w'.users ≡ w.users) × (w'.tasks ≡ w.tasks)

  open_session-Keeps : (payload : JwtPayload) (w : World) → Keeps w (open_session payload w).1
  unfolding open_session
  open_session-Keeps payload w =
      elim (Bool-cases
        (any (λ t. text_eq t.token_hash (p.sha256 (p.random_token w.calls))) w.refresh_tokens)) [
          | inl taken ↦ ground arith
          | inr free ↦ ground arith
        ]

  open_account-Keeps :
      (email : Text) (c : CreateOrgWithAdminResult) (w : World) → Keeps w (open_account email c w).1
  unfolding open_account
  open_account-Keeps email c w =
      let quiet = checkout_url-Quiet email c.org.org_id w in
      >>=-cases (λ r. Keeps w r.1) (checkout_url email c.org.org_id) w
        (λ url. do
          session ← open_session (admin_payload email c)
          pure (record { org = c.org; stripe_checkout_url = url; session = session }))
        (λ url done.
          let v = (checkout_url email c.org.org_id w).1 in
          >>=-cases (λ r. Keeps w r.1) (open_session (admin_payload email c)) v
            (λ session. pure (record { org = c.org; stripe_checkout_url = url; session = session }))
            (λ s opened. let k = open_session-Keeps (admin_payload email c) v in ground arith)
            (λ e failed. let k = open_session-Keeps (admin_payload email c) v in ground arith))
        (λ e failed. ground arith)

  -- What follows the transaction leaves the organisations and the users as they are, however it
  -- ends.
  pub finish_signup-rows :
      (email : Text) (c : CreateOrgWithAdminResult) (w : World)
      → ((finish_signup email c w).1.organisations ≡ w.organisations)
        × ((finish_signup email c w).1.users ≡ w.users)
        × ((finish_signup email c w).1.tasks ≡ (
            if p.production
            then w.tasks
            else w.tasks ++ activate_org c.org.org_id (w.now + 5000) ∷ []))
  unfolding finish_signup schedule_activation
  finish_signup-rows email c w =
      let v = record w { tasks = w.tasks ++ activate_org c.org.org_id (w.now + 5000) ∷ [] } in
      elim (Bool-cases p.production) [
        | inl live ↦ ground (arith, open_account-Keeps email c w)
        | inr dev ↦ ground (arith, open_account-Keeps email c v)
      ]

  open_account-result :
      (email : Text) (c : CreateOrgWithAdminResult) (r : CreateOrgResult) (w : World)
      → (open_account email c w).0 ≡ ok r
      → (r.org ≡ c.org) × (r.session.user ≡ admin_payload email c)
  unfolding open_account
  open_account-result email c r w h = elim (Result-cases (checkout_url email c.org.org_id w).0) [
    | inr (e, failed) ↦ absurd (ground arith)
    | inl (url, paid) ↦
        let v = (checkout_url email c.org.org_id w).1 in
        elim (Result-cases (open_session (admin_payload email c) v).0) [
          | inr (e, failed) ↦ absurd (ground arith)
          | inl (s, opened) ↦
              let o =
                open_session-Opened (admin_payload email c) s v _
                  (ap (λ x. (x, (open_session (admin_payload email c) v).1)) opened) in
              ground (arith, o.user)
        ]
  ]

  pub finish_signup-result :
      (email : Text) (c : CreateOrgWithAdminResult) (r : CreateOrgResult) (w : World)
      → (finish_signup email c w).0 ≡ ok r
      → (r.org ≡ c.org) × (r.session.user ≡ admin_payload email c)
  unfolding finish_signup schedule_activation
  finish_signup-result email c r w h =
      let v = record w { tasks = w.tasks ++ activate_org c.org.org_id (w.now + 5000) ∷ [] } in
      elim (Bool-cases p.production) [
        | inl live ↦ open_account-result email c r w (ground arith)
        | inr dev ↦ open_account-result email c r v (ground arith)
      ]

  -- The steps put together.
  Created-steps :
      (body : CreateOrgBody) (r : CreateOrgResult) (admin : Admin) (email : Text)
      (c : CreateOrgWithAdminResult) (w w1 w2 w' : World)
      → p.find_one (λ o. text_eq o.name body.org_name) w.organisations ≡ none
      → Chosen body w admin
      → Quiet w w1
      → admin.admin_email ≡ some email
      → p.find_one (λ u. text_eq u.email email) w1.users ≡ none
      → Made
          (record {
            org_name = body.org_name;
            admin_email = email;
            password_hash = admin.password_hash;
            google_sub = admin.google_sub;
          })
          c
          w1
          w2
      → finish_signup email c w2 ≡ (ok r, w')
      → Created body r w w'
  unfolding admin_payload
  Created-steps body r admin email c w w1 w2 w' free chosen quiet given unknown made ended =
      let rows = finish_signup-rows email c w2 in
      let result = finish_signup-result email c r w2 (ap (λ x. x.0) ended) in
      let same : admin ≡ record {
        admin_email = some email;
        password_hash = admin.password_hash;
        google_sub = admin.google_sub;
      } =
        ground arith in
      let here : w1.users ≡ w.users = ground arith in
      let t2 : w2.tasks ≡ w.tasks = ground (arith, made.state) in
      let n2 : w2.now ≡ w.now = ground (arith, made.state) in
      let o2 : c.org.org_id ≡ r.org.org_id = ground arith in
      record {
        input = record {
          org_name = body.org_name;
          admin_email = email;
          password_hash = admin.password_hash;
          google_sub = admin.google_sub;
        };
        user = c.user;
        chosen = subst (Chosen body w) same chosen;
        name_free = p.query.find_one-complete _ w.organisations free;
        address_free = p.query.find_one-complete _ w.users (rw here at unknown);
        org = ground (arith, made.org);
        admin = ground (arith, made.user, made.org);
        organisations = ground (arith, made.state);
        users = ground (arith, made.state);
        session_user = ground arith;
        session_org = ground arith;
        scheduled = ground (arith, t2, n2, o2);
      }

  -- A signup that returns found the name and the address unused; it writes one organisation, which
  -- waits for payment, and one administrator of it with the address and the credential of the Google
  -- account or with the password's hash, opens a session of that administrator, and, outside of
  -- production, puts off the activation by five seconds.
  pub create_org-Created :
      (body : CreateOrgBody) (r : CreateOrgResult) (w w' : World)
      → create_org body w ≡ (ok r, w')
      → Created body r w w'
  unfolding create_org find_org_by_name find_registered find_user_by_email admin_payload
  create_org-Created body r w w' h =
      elim (Option-cases (p.find_one (λ o. text_eq o.name body.org_name) w.organisations)) [
        | inr (o, taken) ↦ absurd (ground arith)
        | inl free ↦ elim (Result-cases (choose_admin body w).0) [
          | inr (e, failed) ↦ absurd (ground arith)
          | inl (admin, chose) ↦
              let w1 = (choose_admin body w).1 in
              elim (Option-cases admin.admin_email) [
                | inl absent ↦ elim (Option-cases (p.find_one (λ (u : User). true) w1.users)) [
                  | inr (u, known) ↦ absurd (ground arith)
                  | inl unknown ↦ absurd (ground arith)
                ]
                | inr (email, given) ↦
                    elim (Option-cases (p.find_one (λ u. text_eq u.email email) w1.users)) [
                      | inr (u, known) ↦ absurd (ground arith)
                      | inl unknown ↦
                          let input : CreateOrgWithAdminInput = record {
                            org_name = body.org_name;
                            admin_email = email;
                            password_hash = admin.password_hash;
                            google_sub = admin.google_sub;
                          } in
                          elim (Result-cases (create_org_with_admin input w1).0) [
                            | inr (e, failed) ↦ absurd (ground arith)
                            | inl (c, created) ↦
                                let w2 = (create_org_with_admin input w1).1 in
                                let made =
                                  create_org_with_admin-Made input c w1 w2
                                    (ap (λ x. (x, w2)) created) in
                                let ended : finish_signup email c w2 ≡ (ok r, w') = ground arith in
                                Created-steps body r admin email c w w1 w2 w' free
                                  (choose_admin-Chosen body admin w chose)
                                  (choose_admin-Quiet body w) given unknown made ended
                          ]
                    ]
              ]
        ]
      ]
