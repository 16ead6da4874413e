-- ===== src/Organisations/Retry.antt =====
-- What a failed signup with src/services/organisation/organisation.service.ts leaves behind.
use hashira_be_railway_deplo.Base.{
  ◌≡◌, ap, ◌⊎◌, inl, inr, true, false, [], ◌∷◌, ◌++◌, arith, text_eq, text_eq_iff, Memᴰ,
  Option-cases,
}
use hashira_be_railway_deplo.Types.{Error, err, conflict_error, conflict}
use hashira_be_railway_deplo.Entities.{User, Organisation}
use hashira_be_railway_deplo.Platform.{Platform}
use hashira_be_railway_deplo.World.{World}
use hashira_be_railway_deplo.World.Monad.{Result-cases}
use hashira_be_railway_deplo.Repositories.Rows.{All-mem, Memᴰ-last}
use hashira_be_railway_deplo.Repositories.Organisations.{
  CreateOrgWithAdminInput, create_org_with_admin, find_org_by_name,
}
use hashira_be_railway_deplo.Repositories.Users.{find_user_by_email}
use hashira_be_railway_deplo.Organisations.Service.{
  CreateOrgBody, choose_admin, find_registered, finish_signup, create_org,
}
use hashira_be_railway_deplo.Organisations.Signup.{finish_signup-rows}
use hashira_be_railway_deplo.Organisations.Created.{choose_admin-Quiet, create_org_with_admin-Made}

module _ ⦃p : Platform⦄ where
  create_org_with_admin-rolled_back :
      (input : CreateOrgWithAdminInput) (e : Error) (w : World)
      → (create_org_with_admin input w).0 ≡ err e
      → (create_org_with_admin input w).1.db ≡ w.db
  unfolding create_org_with_admin
  create_org_with_admin-rolled_back input e w h = ground arith

  create_org_taken :
      (body : CreateOrgBody) (org : Organisation) (w : World)
      → Memᴰ org w.organisations
      → org.name ≡ body.org_name
      → create_org body w ≡ (err (conflict_error conflict), w)
  unfolding create_org find_org_by_name
  create_org_taken body org w listed named =
      elim (Option-cases (p.find_one (λ o. text_eq o.name body.org_name) w.organisations)) [
        | inr (o, taken) ↦ ground arith
        | inl free ↦
            let differs =
              All-mem (λ o. text_eq o.name body.org_name ≡ false)
                (p.query.find_one-complete _ w.organisations free) listed in
            let same = (text_eq_iff org.name body.org_name).1 named in absurd (ground arith)
      ]

  -- A signup that fails has changed neither organisations nor users, or else, for as long as the
  -- organisations stay as it left them, repeating it is refused as a conflict.
  pub create_org_retry :
      (body : CreateOrgBody) (e : Error) (w w' later : World)
      → create_org body w ≡ (err e, w')
      → later.organisations ≡ w'.organisations
      → ((w'.organisations ≡ w.organisations) × (w'.users ≡ w.users))
        ⊎ (create_org body later ≡ (err (conflict_error conflict), later))
  unfolding create_org find_org_by_name find_registered find_user_by_email
  create_org_retry body e w w' later h same =
      elim (Option-cases (p.find_one (λ o. text_eq o.name body.org_name) w.organisations)) [
        | inr (o, taken) ↦ inl (ground arith)
        | inl free ↦
            let w1 = (choose_admin body w).1 in
            let quiet = choose_admin-Quiet body w in
            elim (Result-cases (choose_admin body w).0) [
              | inr (e1, failed) ↦ inl (ground arith)
              | inl (admin, chose) ↦ elim (Option-cases admin.admin_email) [
                | inl absent ↦ elim (Option-cases (p.find_one (λ (u : User). true) w1.users)) [
                  | inr (u, known) ↦ inl (ground arith)
                  | inl unknown ↦ inl (ground arith)
                ]
                | inr (email, given) ↦
                    elim (Option-cases (p.find_one (λ u. text_eq u.email email) w1.users)) [
                      | inr (u, known) ↦ inl (ground arith)
                      | inl unknown ↦
                          let input : CreateOrgWithAdminInput = record {
                            org_name = body.org_name;
                            admin_email = email;
                            password_hash = admin.password_hash;
                            google_sub = admin.google_sub;
                          } in
                          elim (Result-cases (create_org_with_admin input w1).0) [
                            | inr (e1, failed) ↦
                                let back = create_org_with_admin-rolled_back input e1 w1 failed in
                                let ends : (create_org_with_admin input w1).1 ≡ w' = ground arith in
                                inl (ground (arith, quiet))
                            | inl (c, created) ↦
                                let w2 = (create_org_with_admin input w1).1 in
                                let made =
                                  create_org_with_admin-Made input c w1 w2
                                    (ap (λ x. (x, w2)) created) in
                                let rows = finish_signup-rows email c w2 in
                                let ended : finish_signup email c w2 ≡ (err e, w') = ground arith in
                                let left : later.organisations ≡ w1.organisations ++ c.org ∷ [] =
                                  ground (arith, made.state) in
                                inr (
                                  create_org_taken body c.org later
                                    (rw left (Memᴰ-last w1.organisations c.org))
                                    (ap (λ (o : Organisation). o.name) made.org))
                          ]
                    ]
              ]
            ]
      ]
