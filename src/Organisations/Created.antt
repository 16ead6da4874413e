-- ===== src/Organisations/Created.antt =====
-- What src/services/organisation/organisation.service.ts writes, step by step.
use mathlib.Core.Path.{subst}
use hashira_be_railway_deplo.Base.{
  ◌+◌, ◌≡◌, inl, inr, true, false, some, none, [], ◌∷◌, ◌++◌, Text, arith, text_eq, any,
  Option-cases, Bool-cases,
}
use hashira_be_railway_deplo.Base.Strings.{truthy}
use hashira_be_railway_deplo.Types.{OrgStatus, SubscriptionStatus, UserRole, UserStatus, ok}
use hashira_be_railway_deplo.Entities.{Uuid, Date, Organisation, User}
use hashira_be_railway_deplo.Platform.{Platform, GoogleClaims}
use hashira_be_railway_deplo.World.{World}
use hashira_be_railway_deplo.World.Monad.{Result-cases}
use hashira_be_railway_deplo.Repositories.Organisations.{
  CreateOrgWithAdminInput, CreateOrgWithAdminResult, create_org_with_admin,
}
use hashira_be_railway_deplo.Organisations.Service.{
  CreateOrgBody, Admin, choose_admin, checkout_url,
}

abbrev pub new_org : Text → Uuid → Date → Organisation
new_org name org_id now = record {
  org_id = org_id;
  name = name;
  status = OrgStatus.payment_pending;
  user_limit = 10;
  stripe_customer_id = none;
  stripe_subscription_id = none;
  subscription_status = SubscriptionStatus.trialing;
  created_at = now;
  updated_at = now;
}

abbrev pub new_admin : CreateOrgWithAdminInput → Uuid → Uuid → Date → User
new_admin input org_id user_id now = record {
  user_id = user_id;
  org_id = some org_id;
  email = input.admin_email;
  password_hash = input.password_hash;
  google_sub = input.google_sub;
  role = UserRole.admin;
  status = UserStatus.active;
  mfa_enabled = false;
  totp_secret = none;
  totp_secret_pending = none;
  invited_by = none;
  created_at = now;
}

module _ ⦃p : Platform⦄ where
  -- Nothing but the count of calls is changed.
  abbrev pub Quiet : World → World → Type 0
  Quiet w w' = w' ≡ record w { calls = w'.calls }

  pub choose_admin-Quiet : (body : CreateOrgBody) (w : World) → Quiet w (choose_admin body w).1
  unfolding choose_admin
  choose_admin-Quiet body w = elim (Option-cases (truthy body.google_id_token)) [
    | inl absent ↦ elim (Option-cases body.password) [
      | inl unset ↦ ground arith
      | inr (password, given) ↦ ground arith
    ]
    | inr (token, given) ↦ elim (Option-cases (p.google_verify token w.now)) [
      | inl refused ↦ ground arith
      | inr (claims, verified) ↦ ground arith
    ]
  ]

  pub checkout_url-Quiet :
      (email : Text) (org_id : Uuid) (w : World) → Quiet w (checkout_url email org_id w).1
  unfolding checkout_url
  checkout_url-Quiet email org_id w = elim (Bool-cases p.skip_ses) [
    | inl skipped ↦ ground arith
    | inr asked ↦ elim (Result-cases (p.stripe_checkout w.calls email org_id)) [
      | inl (url, answered) ↦ ground arith
      | inr (e, failed) ↦ ground arith
    ]
  ]

  -- The transaction: both rows, or none.
  pub record Made (input : CreateOrgWithAdminInput) (c : CreateOrgWithAdminResult) (w w' : World)
      : Type 0 where
    pub fresh_name : any (λ o. text_eq o.name input.org_name) w.organisations ≡ false
    pub org : c.org ≡ new_org input.org_name (p.uuid w.calls) w.now
    pub user : c.user ≡ new_admin input (p.uuid w.calls) (p.uuid (w.calls + 1)) w.now
    pub state : w' ≡ record w {
      calls = w.calls + 1 + 1;
      db = record w.db {
        organisations = w.organisations ++ c.org ∷ [];
        users = w.users ++ c.user ∷ [];
      };
    }

  pub create_org_with_admin-Made :
      (input : CreateOrgWithAdminInput) (c : CreateOrgWithAdminResult) (w w' : World)
      → create_org_with_admin input w ≡ (ok c, w')
      → Made input c w w'
  unfolding create_org_with_admin
  create_org_with_admin-Made input c w w' h = record {
    fresh_name = ground arith;
    org = ground arith;
    user = ground arith;
    state = ground arith;
  }

  -- Who becomes the administrator: the verified owner of a Google account, or who gave a password.
  pub data Chosen (body : CreateOrgBody) (w : World) : Admin → Type 0 where
    by_google :
        (token : Text) (claims : GoogleClaims)
        → truthy body.google_id_token ≡ some token
        → p.google_verify token w.now ≡ some claims
        → claims.email_verified ≡ true
        → Chosen body w (record {
          admin_email = some claims.email;
          password_hash = none;
          google_sub = some claims.sub;
        })
    by_password :
        (password : Text)
        → truthy body.google_id_token ≡ none
        → body.password ≡ some password
        → Chosen body w (record {
          admin_email = body.admin_email;
          password_hash = some (p.bcrypt_hash w.calls password);
          google_sub = none;
        })

  pub choose_admin-Chosen :
      (body : CreateOrgBody) (admin : Admin) (w : World)
      → (choose_admin body w).0 ≡ ok admin
      → Chosen body w admin
  unfolding choose_admin
  choose_admin-Chosen body admin w h = elim (Option-cases (truthy body.google_id_token)) [
    | inl absent ↦ elim (Option-cases body.password) [
      | inl unset ↦ absurd (ground arith)
      | inr (password, given) ↦
          let same : record {
            admin_email = body.admin_email;
            password_hash = some (p.bcrypt_hash w.calls password);
            google_sub = none;
          }
              ≡ admin =
            ground arith in
          subst (Chosen body w) same (Chosen.by_password password absent given)
    ]
    | inr (token, given) ↦ elim (Option-cases (p.google_verify token w.now)) [
      | inl refused ↦ absurd (ground arith)
      | inr (claims, verified) ↦
          let same : record {
            admin_email = some claims.email;
            password_hash = none;
            google_sub = some claims.sub;
          }
              ≡ admin =
            ground arith in
          subst (Chosen body w) same (Chosen.by_google token claims given verified (ground arith))
    ]
  ]
