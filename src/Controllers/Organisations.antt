-- ===== src/Controllers/Organisations.antt =====
-- src/controllers/organisation/organisation.controller.ts, src/controllers/api-key and
-- src/controllers/invitation.
use hashira_be_railway_deplo.Base.{Option, none, some, List, Text}
use hashira_be_railway_deplo.Types.{
  OrgStatus, ApiKeyPermission, ApiKeyStatus, forbidden_error, no_org,
}
use hashira_be_railway_deplo.Entities.{Uuid, Date}
use hashira_be_railway_deplo.Platform.{Platform}
use hashira_be_railway_deplo.World.Monad.{App, pure, or_throw, ◌>>=◌, ◌>>◌}
use hashira_be_railway_deplo.ApiKeys.Service.{
  CreatedApiKey, ApiKeySummary, create_key, list_keys, revoke_key,
}
use hashira_be_railway_deplo.Middleware.Access.{Request}
use hashira_be_railway_deplo.Organisations.Service.{CreateOrgBody, create_org}
use hashira_be_railway_deplo.Organisations.Invitation.{InvitationData, validate_invitation}
use hashira_be_railway_deplo.Controllers.Http.{Response, reply, session_cookies}

pub record OrganisationData : Type 0 where
  pub org_id : Uuid
  pub org_name : Text
  pub status : OrgStatus
  pub stripe_checkout_url : Text
  pub created_at : Date

-- CreateApiKeyBody
pub record CreateApiKeyBody : Type 0 where
  pub permissions : List ApiKeyPermission
  pub email : Option Text
  pub name : Option Text

pub record RevokedData : Type 0 where
  pub key_id : Uuid
  pub status : ApiKeyStatus

-- `req.user?.org_id`
unfoldable pub resolve_org_id : Request → App Uuid
resolve_org_id req = elim req.user [
  | none ↦ or_throw none (forbidden_error no_org)
  | some user ↦ or_throw user.org_id (forbidden_error no_org)
]

module _ ⦃p : Platform⦄ where
  unfoldable pub create_organisation_handler : CreateOrgBody → App (Response OrganisationData)
  unfolding session_cookies
  create_organisation_handler body = do
    created ← create_org body
    pure (record {
      status = 201;
      cookies = session_cookies created.session.session_token created.session.refresh_token;
      body = record {
        org_id = created.org.org_id;
        org_name = created.org.name;
        status = created.org.status;
        stripe_checkout_url = created.stripe_checkout_url;
        created_at = created.org.created_at;
      };
    })

  unfoldable pub create_key_handler : CreateApiKeyBody → Request → App (Response CreatedApiKey)
  unfolding resolve_org_id reply
  create_key_handler body req = do
    org_id ← resolve_org_id req
    key ← create_key (record {
      org_id = org_id;
      email = body.email;
      permissions = some body.permissions;
      name = body.name;
    })
    pure (reply 201 key)

  unfoldable pub list_keys_handler : Request → App (Response (List ApiKeySummary))
  unfolding resolve_org_id reply
  list_keys_handler req = do
    org_id ← resolve_org_id req
    keys ← list_keys org_id
    pure (reply 200 keys)

  unfoldable pub revoke_key_handler : Uuid → Request → App (Response RevokedData)
  unfolding resolve_org_id reply
  revoke_key_handler key_id req = do
    org_id ← resolve_org_id req
    revoke_key key_id org_id
    pure (reply 200 (record { key_id = key_id; status = ApiKeyStatus.revoked }))

  unfoldable pub validate_invitation_handler : Date → Option Text → App (Response InvitationData)
  unfolding reply
  validate_invitation_handler loaded_at token = do
    found ← validate_invitation loaded_at token
    pure (reply 200 found)
