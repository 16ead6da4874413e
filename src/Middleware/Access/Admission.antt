-- ===== src/Middleware/Access/Admission.antt =====
-- Whom the middleware lets through.
use hashira_be_railway_deplo.Base.{
  ◌≡◌, ap, ◌⊎◌, inl, inr, Option, none, some, true, false, Memᴰ, Text, arith, Option-cases, ◌==◌,
  ==_iff,
}
use hashira_be_railway_deplo.Base.Strings.{truthy}
use hashira_be_railway_deplo.Types.{is_active_user, ok}
use hashira_be_railway_deplo.Entities.{Uuid, User}
use hashira_be_railway_deplo.Platform.{Platform, JwtPayload}
use hashira_be_railway_deplo.World.{World}
use hashira_be_railway_deplo.World.Monad.{Result-cases}
use hashira_be_railway_deplo.Repositories.Users.{find_user_by_id}
use hashira_be_railway_deplo.Repositories.Organisations.{find_org_by_id, org_where}
use hashira_be_railway_deplo.Middleware.Access.{
  Request, auth_user, authenticate, check_org, is_get_me, is_logout, is_suspended_org,
}

module _ ⦃p : Platform⦄ where
  -- What a request with a session has shown.
  pub record Authenticated (req req' : Request) (w : World) : Type 0 where
    pub token : Text
    pub payload : JwtPayload
    pub user : User
    pub cookie : truthy req.session_cookie ≡ some token
    pub verified : p.jwt_verify token w.now ≡ some payload
    pub listed : Memᴰ user w.users
    pub same_id : user.user_id ≡ payload.user_id
    pub active : is_active_user user.status ≡ true
    pub standing :
        (org_id : Uuid)
        → user.org_id ≡ some org_id
        → (is_suspended_org (p.find_one (org_where (some org_id)) w.organisations) ≡ false)
          ⊎ (is_get_me req ≡ true)
          ⊎ (is_logout req ≡ true)
    pub request : req' ≡ record req { user = some (auth_user user) }

  check_org-standing :
      (user : User) (o : Option Uuid) (req : Request) (w w' : World) (u : Unit {0})
      → check_org user o req w ≡ (ok u, w')
      → (w' ≡ w)
        × ((org_id : Uuid)
            → o ≡ some org_id
            → (is_suspended_org (p.find_one (org_where (some org_id)) w.organisations) ≡ false)
              ⊎ (is_get_me req ≡ true)
              ⊎ (is_logout req ≡ true))
  unfolding check_org find_org_by_id
  check_org-standing user none req w w' u h = (ground arith, λ org_id e. absurd (ground arith))
  check_org-standing user (some o) req w w' u h = (ground arith, λ org_id e. ground arith)

  -- A request that `authenticate` lets through carries a session token that verifies now, of an
  -- active user in the database; the user's organisation, if there is one, is not suspended unless
  -- the request is GET /v1/me or POST /v1/auth/logout. The request gets that user as the database
  -- has it, and nothing changes.
  pub authenticate-Authenticated :
      (req req' : Request) (w w' : World)
      → authenticate req w ≡ (ok req', w')
      → Authenticated req req' w × (w' ≡ w)
  unfolding authenticate find_user_by_id
  authenticate-Authenticated req req' w w' h = elim (Option-cases (truthy req.session_cookie)) [
    | inl absent ↦ absurd (ground arith)
    | inr (token, cookie) ↦ elim (Option-cases (p.jwt_verify token w.now)) [
      | inl refused ↦ absurd (ground arith)
      | inr (payload, verified) ↦
          elim (Option-cases (p.find_one (λ u. u.user_id == payload.user_id) w.users)) [
            | inl unknown ↦ absurd (ground arith)
            | inr (user, looked) ↦ elim (Result-cases (check_org user user.org_id req w).0) [
              | inr (e, failed) ↦ absurd (ground arith)
              | inl (u, passed) ↦
                  let v = (check_org user user.org_id req w).1 in
                  let (same, standing) =
                    check_org-standing user user.org_id req w v u (ap (λ r. (r, v)) passed) in
                  let (listed, fit) = p.query.find_one-sound _ w.users user looked in
                  (
                    record {
                      token = token;
                      payload = payload;
                      user = user;
                      cookie = cookie;
                      verified = verified;
                      listed = listed;
                      same_id = (==_iff _ _).0 fit;
                      active = ground arith;
                      standing = standing;
                      request = ground arith;
                    },
                    ground arith,
                  )
            ]
          ]
    ]
  ]
