-- ===== src/Repositories/Users.antt =====
-- src/repositories/user.repository.ts, and the unique columns of src/entities/user.entity.ts.
use hashira_be_railway_deplo.Base.{
  ℕ, Bool, false, not, Option, none, some, ◌&&◌, ◌||◌, List, [], ◌∷◌, ◌++◌, Text, text_eq, any,
  ◌==◌, keep,
}
use hashira_be_railway_deplo.Types.{UserRole, UserStatus, is_active_user}
use hashira_be_railway_deplo.Entities.{Uuid, User}
use hashira_be_railway_deplo.Platform.{Platform}
use hashira_be_railway_deplo.World.Monad.{App, gets, draw, modify_db, throw_if, pure, ◌>>=◌, ◌>>◌}
use hashira_be_railway_deplo.Repositories.Sql.{
  update_where, count_where, same_text, same_uuid, unique_violation,
}

-- The columns that the program gives to `create(User, …)`; the rest have their defaults.
pub record UserData : Type 0 where
  pub org_id : Option Uuid
  pub email : Text
  pub password_hash : Option Text
  pub google_sub : Option Text
  pub role : UserRole
  pub invited_by : Option Uuid

abbrev pub clashes : UserData → User → Bool
clashes d u = text_eq u.email d.email || same_text u.google_sub d.google_sub

abbrev pub is_active_member : Uuid → User → Bool
is_active_member org_id u = same_uuid u.org_id org_id && is_active_user u.status

module _ ⦃p : Platform⦄ where
  unfoldable pub find_user_by_email : Text → App (Option User)
  find_user_by_email email = gets λ w. p.find_one (λ u. text_eq u.email email) w.users

  unfoldable pub find_user_by_id : Uuid → App (Option User)
  find_user_by_id user_id = gets λ w. p.find_one (λ u. u.user_id == user_id) w.users

  unfoldable pub find_user_by_google_sub : Text → App (Option User)
  find_user_by_google_sub sub =
      gets λ w. p.find_one (λ u. same_text u.google_sub (some sub)) w.users

  unfoldable pub find_user_by_id_and_org : Uuid → Uuid → App (Option User)
  find_user_by_id_and_org user_id org_id =
      gets λ w. p.find_one (λ u. u.user_id == user_id && is_active_member org_id u) w.users

  unfoldable pub find_user_by_email_and_org : Text → Uuid → App (Option User)
  find_user_by_email_and_org email org_id =
      gets λ w. p.find_one (λ u. text_eq u.email email && is_active_member org_id u) w.users

  -- The database refuses a second row with the address or the Google account, and generates the key.
  unfoldable pub save_user : UserData → App User
  save_user d = do
    throw_if (← gets λ w. any (clashes d) w.users) unique_violation
    user_id ← draw p.uuid
    created_at ← gets (λ w. w.now)
    let user : User = record {
      user_id = user_id;
      org_id = d.org_id;
      email = d.email;
      password_hash = d.password_hash;
      google_sub = d.google_sub;
      role = d.role;
      status = UserStatus.active;
      mfa_enabled = false;
      totp_secret = none;
      totp_secret_pending = none;
      invited_by = d.invited_by;
      created_at = created_at;
    }
    modify_db λ db. record db { users = db.users ++ user ∷ [] }
    pure user

unfoldable pub update_user : Uuid → (User → User) → App (Unit {0})
update_user user_id change =
    modify_db λ db. record db { users = update_where (λ u. u.user_id == user_id) change db.users }

-- A unique column: the update fails if another user has the Google account.
unfoldable pub update_user_google_sub : Uuid → Text → App (Unit {0})
unfolding update_user
update_user_google_sub user_id sub = do
  throw_if
      (← gets
        λ w. any (λ u. same_text u.google_sub (some sub) && not (u.user_id == user_id)) w.users)
      unique_violation
  update_user user_id (λ u. record u { google_sub = some sub })

unfoldable pub count_active_users_by_org : Uuid → App ℕ
count_active_users_by_org org_id = gets λ w. count_where (is_active_member org_id) w.users

unfoldable pub find_users_by_ids : List Uuid → App (List User)
find_users_by_ids user_ids = gets λ w. keep (λ u. any (λ id. id == u.user_id) user_ids) w.users
