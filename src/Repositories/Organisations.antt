-- ===== src/Repositories/Organisations.antt =====
-- src/repositories/organisation.repository.ts.
use hashira_be_railway_deplo.Base.{
  Bool, true, Option, none, some, ◌&&◌, [], ◌∷◌, ◌++◌, Text, text_eq, any, ◌==◌,
}
use hashira_be_railway_deplo.Types.{OrgStatus, SubscriptionStatus, UserRole, is_payment_pending}
use hashira_be_railway_deplo.Entities.{Uuid, Organisation, User}
use hashira_be_railway_deplo.Platform.{Platform}
use hashira_be_railway_deplo.World.Monad.{
  App, gets, draw, modify_db, throw_if, pure, transaction, ◌>>=◌, ◌>>◌,
}
use hashira_be_railway_deplo.Repositories.Sql.{update_where, unique_violation}
use hashira_be_railway_deplo.Repositories.Users.{save_user}

pub record CreateOrgWithAdminInput : Type 0 where
  pub org_name : Text
  pub admin_email : Text
  pub password_hash : Option Text
  pub google_sub : Option Text

pub record CreateOrgWithAdminResult : Type 0 where
  pub org : Organisation
  pub user : User

-- `where: { org_id }`: TypeORM leaves a null out of the condition, so that every row fits.
abbrev pub org_where : Option Uuid → Organisation → Bool
org_where none o = true
org_where (some org_id) o = o.org_id == org_id

unfoldable pub activate : Organisation → Organisation
activate o = record o { status = OrgStatus.active; subscription_status = SubscriptionStatus.active }

unfoldable pub activate_org_by_id : Uuid → App (Unit {0})
unfolding activate
activate_org_by_id org_id = modify_db λ db. record db {
  organisations =
      update_where (λ o. o.org_id == org_id && is_payment_pending o.status) activate
        db.organisations;
}

module _ ⦃p : Platform⦄ where
  unfoldable pub find_org_by_id : Option Uuid → App (Option Organisation)
  find_org_by_id org_id = gets λ w. p.find_one (org_where org_id) w.organisations

  unfoldable pub find_org_by_name : Text → App (Option Organisation)
  find_org_by_name name = gets λ w. p.find_one (λ o. text_eq o.name name) w.organisations

  -- A new organisation has the columns' defaults: ten members, trialing, no Stripe account.
  unfoldable pub save_org : Text → App Organisation
  save_org name = do
    throw_if (← gets λ w. any (λ o. text_eq o.name name) w.organisations) unique_violation
    org_id ← draw p.uuid
    now ← gets (λ w. w.now)
    let org : Organisation = record {
      org_id = org_id;
      name = name;
      status = OrgStatus.payment_pending;
      user_limit = 10;
      stripe_customer_id = none;
      stripe_subscription_id = none;
      subscription_status = SubscriptionStatus.trialing;
      created_at = now;
      updated_at = now;
    }
    modify_db λ db. record db { organisations = db.organisations ++ org ∷ [] }
    pure org

  unfoldable pub create_org_with_admin : CreateOrgWithAdminInput → App CreateOrgWithAdminResult
  unfolding save_org save_user
  create_org_with_admin input = transaction do
    org ← save_org input.org_name
    user ← save_user (record {
      org_id = some org.org_id;
      email = input.admin_email;
      password_hash = input.password_hash;
      google_sub = input.google_sub;
      role = UserRole.admin;
      invited_by = none;
    })
    pure (record { org = org; user = user })
