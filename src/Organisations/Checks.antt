-- ===== src/Organisations/Checks.antt =====
-- Signups on concrete states, and each theorem about them at a concrete input.
use hashira_be_railway_deplo.Base.{◌≡◌, refl, ◌⊎◌, [], ◌∷◌, str, some, none, text_eq, any}
use hashira_be_railway_deplo.Types.{ok, err, other_error, conflict_error, conflict, UserRole}
use hashira_be_railway_deplo.Platform.{Platform}
use hashira_be_railway_deplo.World.{World}
use hashira_be_railway_deplo.Repositories.Sql.{same_text}
use hashira_be_railway_deplo.Base.Hex.{hex_encode}
use hashira_be_railway_deplo.Organisations.Service.{CreateOrgBody, CreateOrgResult, create_org}
use hashira_be_railway_deplo.Organisations.Created.{new_org}
use hashira_be_railway_deplo.Organisations.Signup.{Created, create_org-Created}
use hashira_be_railway_deplo.Organisations.Retry.{create_org_retry}
use hashira_be_railway_deplo.Samples.Rows.{find_first}
use hashira_be_railway_deplo.Samples.Services.{demo, start}

abbrev signup : CreateOrgBody
signup = record {
  org_name = str "Globex";
  admin_email = some (str "hank@x.io");
  password = some (str "password");
  google_id_token = none;
}

abbrev signed_up : CreateOrgResult
signed_up = record {
  org = new_org (str "Globex") 101 1000;
  stripe_checkout_url = str "https://stripe";
  session = record {
    session_token = str "hank@x.io";
    refresh_token = b't' ∷ 4 ∷ [];
    user = record {
      user_id = 102;
      org_id = some 101;
      role = UserRole.admin;
      email = str "hank@x.io";
    };
  };
}

abbrev after_signup : World
after_signup = (create_org signup start).1

sign_up_run : create_org signup start ≡ (ok signed_up, after_signup)
unfolding create_org find_first text_eq any same_text hex_encode
sign_up_run = refl

create_org-Created_example : Created signup signed_up start after_signup
create_org-Created_example = create_org-Created signup signed_up start after_signup sign_up_run

-- Stripe does not answer.
abbrev no_stripe : Platform
no_stripe = record demo { stripe_checkout = λ n email org_id. err (other_error (str "down")) }

abbrev after_failure : World
after_failure = (create_org ⦃p = no_stripe⦄ signup start).1

signup_fails :
    create_org ⦃p = no_stripe⦄ signup start ≡ (err (other_error (str "down")), after_failure)
unfolding create_org find_first text_eq any same_text
signup_fails = refl

create_org_retry_example :
    ((after_failure.organisations ≡ start.organisations) × (after_failure.users ≡ start.users))
    ⊎ (create_org ⦃p = no_stripe⦄ signup after_failure
        ≡ (err (conflict_error conflict), after_failure))
create_org_retry_example =
    create_org_retry ⦃p = no_stripe⦄ signup (other_error (str "down")) start after_failure
      after_failure signup_fails refl
