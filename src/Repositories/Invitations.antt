-- ===== src/Repositories/Invitations.antt =====
-- src/repositories/invitation.repository.ts.
use hashira_be_railway_deplo.Base.{Bool, Option, ◌&&◌, Text, text_eq, ltb, ◌==◌}
use hashira_be_railway_deplo.Types.{InvitationStatus, is_pending}
use hashira_be_railway_deplo.Entities.{Date, Invitation, User}
use hashira_be_railway_deplo.Platform.{Platform}
use hashira_be_railway_deplo.World.Monad.{App, gets, modify_db, pure, transaction, ◌>>=◌, ◌>>◌}
use hashira_be_railway_deplo.Repositories.Sql.{update_where}
use hashira_be_railway_deplo.Repositories.Users.{UserData, save_user}

unfoldable pub is_open : Text → Date → Invitation → Bool
is_open token_hash now i =
    text_eq i.token_hash token_hash && is_pending i.status && ltb now i.expires_at

unfoldable pub accept : Invitation → Invitation
accept i = record i { status = InvitationStatus.accepted }

module _ ⦃p : Platform⦄ where
  unfoldable pub find_invitation_by_token_hash : Text → App (Option Invitation)
  find_invitation_by_token_hash token_hash =
      gets λ w. p.find_one (is_open token_hash w.now) w.invitations

  unfoldable pub accept_invitation_and_create_user : Invitation → UserData → App User
  unfolding save_user
  accept_invitation_and_create_user invitation user_data = transaction do
    saved ← save_user user_data
    modify_db λ db. record db {
      invitations =
          update_where (λ i. i.invitation_id == invitation.invitation_id) accept db.invitations;
    }
    pure saved
