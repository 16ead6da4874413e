-- ===== src/Organisations/Invitation.antt =====
-- src/controllers/invitation/invitation.controller.ts.
use hashira_be_railway_deplo.Base.{
  ◌+◌, ◌*◌, ◌&&◌, Option, none, some, Text, str, text_eq, if◌then◌else◌, from_option,
}
use hashira_be_railway_deplo.Base.Strings.{truthy}
use hashira_be_railway_deplo.Types.{UserRole, validation_failed, gone_error, validation_error, gone}
use hashira_be_railway_deplo.Entities.{Date}
use hashira_be_railway_deplo.Platform.{Platform}
use hashira_be_railway_deplo.World.Monad.{App, pure, or_throw, ◌>>=◌}
use hashira_be_railway_deplo.Repositories.Invitations.{find_invitation_by_token_hash}
use hashira_be_railway_deplo.Repositories.Organisations.{find_org_by_id}

abbrev pub dev_invite_token : Text
dev_invite_token = str "1234"

pub record InvitationData : Type 0 where
  pub org_name : Option Text
  pub role : UserRole
  pub expires_at : Date

-- The date is computed when the module is loaded.
unfoldable pub dev_invite_response : Date → InvitationData
dev_invite_response loaded_at = record {
  org_name = some (str "Dev Test Org");
  role = UserRole.member;
  expires_at = loaded_at + 7 * 24 * 60 * 60 * 1000;
}

module _ ⦃p : Platform⦄ where
  unfoldable pub look_up_invitation : Text → App InvitationData
  unfolding find_invitation_by_token_hash find_org_by_id
  look_up_invitation token = do
    found ← find_invitation_by_token_hash (p.sha256 token)
    invitation ← or_throw found (gone_error gone)
    org ← find_org_by_id (some invitation.org_id)
    pure (record {
      org_name = from_option none (λ o. some o.name) org;
      role = invitation.role;
      expires_at = invitation.expires_at;
    })

  -- The `data` of the answer with status 200; SKIP_SES lets a fixed token through.
  unfoldable pub validate_invitation : Date → Option Text → App InvitationData
  unfolding look_up_invitation dev_invite_response
  validate_invitation loaded_at token = do
    given ← or_throw (truthy token) (validation_failed validation_error)
    if p.skip_ses && text_eq given dev_invite_token
        then pure (dev_invite_response loaded_at)
        else look_up_invitation given
