-- ===== src/Controllers/Routes/Admitted.antt =====
-- Who gets through src/routes to the handlers of keys and events, and what they can do there.
use hashira_be_railway_deplo.Base.{
  ◌≡◌, refl, ap, ◌∙◌, ◌⊎◌, inl, inr, true, some, Memᴰ, arith, any, Option-cases, Bool-cases,
}
use hashira_be_railway_deplo.Types.{UserRole, role_eq, is_active_user, is_active_key, ok}
use hashira_be_railway_deplo.Entities.{Uuid, User}
use hashira_be_railway_deplo.Platform.{Platform}
use hashira_be_railway_deplo.World.{World}
use hashira_be_railway_deplo.World.Monad.{App, Result-cases}
use hashira_be_railway_deplo.Repositories.Sql.{update_where}
use hashira_be_railway_deplo.Repositories.ApiKeys.{
  is_key_of, revoke, revoke_api_key, find_api_key_by_id_and_org,
}
use hashira_be_railway_deplo.ApiKeys.Service.{revoke_key, revoke_unless_revoked}
use hashira_be_railway_deplo.Middleware.Access.{
  Request, AuthUser, auth_user, authenticate, authorize,
}
use hashira_be_railway_deplo.Middleware.Access.Admission.{Authenticated, authenticate-Authenticated}
use hashira_be_railway_deplo.Controllers.Http.{Response}
use hashira_be_railway_deplo.Controllers.Organisations.{
  RevokedData, resolve_org_id, revoke_key_handler,
}
use hashira_be_railway_deplo.Controllers.Routes.{admin_roles, admin_gate, delete_api_key_route}

-- What express-rate-limit does: it gives the request on as it is, or it throws; its counts are its
-- own.
abbrev pub Passes : (Request → App Request) → Type 0
Passes limiter =
    (req req' : Request) (w w' : World)
    → limiter req w ≡ (ok req', w')
    → (req' ≡ req) × (w'.db ≡ w.db)

admin_role :
    (r : UserRole)
    → any (λ allowed. role_eq allowed r) admin_roles ≡ true
    → (r ≡ UserRole.admin) ⊎ (r ≡ UserRole.super_admin)
unfolding any
admin_role UserRole.member h = absurd (ground arith)
admin_role UserRole.admin h = inl refl
admin_role UserRole.super_admin h = inr refl

authorize-same :
    (req req' : Request) (user : AuthUser) (w w' : World)
    → req.user ≡ some user
    → authorize admin_roles req w ≡ (ok req', w')
    → (req' ≡ req) × (w' ≡ w) × ((user.role ≡ UserRole.admin) ⊎ (user.role ≡ UserRole.super_admin))
unfolding authorize
authorize-same req req' user w w' known h =
    elim (Bool-cases (any (λ allowed. role_eq allowed user.role) admin_roles)) [
      | inl allowed ↦ (ground arith, ground arith, admin_role user.role allowed)
      | inr refused ↦ absurd (ground arith)
    ]

module _ ⦃p : Platform⦄ (ip_rate_limiter : Request → App Request)
    (api_key_burst_limiter api_key_sustained_limiter : Request → App Request) where
  -- An administrator: an active user of the database whose session the request carries.
  pub record Administrator (req req' : Request) (user : User) (w : World) : Type 0 where
    pub session : Authenticated req (record req { user = some (auth_user user) }) w
    pub listed : Memᴰ user w.users
    pub active : is_active_user user.status ≡ true
    pub role : (user.role ≡ UserRole.admin) ⊎ (user.role ≡ UserRole.super_admin)
    pub request : req'.user ≡ some (auth_user user)

  admin_gate-Administrator :
      (req req' : Request) (w w' : World)
      → Passes ip_rate_limiter
      → admin_gate ip_rate_limiter api_key_burst_limiter api_key_sustained_limiter req w
        ≡ (ok req', w')
      → (user : User) × Administrator req req' user w × (w'.db ≡ w.db)
  unfolding admin_gate auth_user
  admin_gate-Administrator req req' w w' passes h = elim (Result-cases (authenticate req w).0) [
    | inr (e, failed) ↦ absurd (ground arith)
    | inl (known, done) ↦
        let w1 = (authenticate req w).1 in
        let (a, same) = authenticate-Authenticated req known w w1 (ap (λ r. (r, w1)) done) in
        elim (Result-cases (authorize admin_roles known w1).0) [
          | inr (e, failed) ↦ absurd (ground arith)
          | inl (allowed, done2) ↦
              let w2 = (authorize admin_roles known w1).1 in
              let (kept, still, role) =
                authorize-same known allowed (auth_user a.user) w1 w2
                  (ap (λ (r : Request). r.user) a.request) (ap (λ r. (r, w2)) done2) in
              let (last, db) = passes allowed req' w2 w' (ground arith) in
              (
                a.user,
                record {
                  session = rw a.request at a;
                  listed = a.listed;
                  active = a.active;
                  role = role;
                  request = ap (λ (r : Request). r.user) (last ∙ kept ∙ a.request);
                },
                ground arith,
              )
        ]
  ]

  -- What a revocation that returns has done.
  revoke_key-own :
      (key_id org_id : Uuid) (w w' : World)
      → revoke_key key_id org_id w ≡ (ok tt, w')
      → (w'.api_keys ≡ w.api_keys)
        ⊎ (w'.api_keys ≡ update_where (is_key_of key_id org_id) revoke w.api_keys)
  unfolding revoke_key find_api_key_by_id_and_org revoke_api_key revoke_unless_revoked
  revoke_key-own key_id org_id w w' h =
      elim (Option-cases (p.find_one (is_key_of key_id org_id) w.api_keys)) [
        | inl missed ↦ absurd (ground arith)
        | inr (existing, found) ↦ elim (Bool-cases (is_active_key existing.status)) [
          | inl live ↦ inr (ground arith)
          | inr dead ↦ inl (ground arith)
        ]
      ]

  revoke_key_handler-own :
      (key_id : Uuid) (req : Request) (user : AuthUser) (r : Response RevokedData) (w w' : World)
      → req.user ≡ some user
      → revoke_key_handler key_id req w ≡ (ok r, w')
      → (org_id : Uuid) × (user.org_id ≡ some org_id)
        × ((w'.api_keys ≡ w.api_keys)
            ⊎ (w'.api_keys ≡ update_where (is_key_of key_id org_id) revoke w.api_keys))
  unfolding revoke_key_handler resolve_org_id
  revoke_key_handler-own key_id req user r w w' known h = elim (Option-cases user.org_id) [
    | inl nowhere ↦ absurd (ground arith)
    | inr (org_id, own) ↦ elim (Result-cases (revoke_key key_id org_id w).0) [
      | inr (e, failed) ↦ absurd (ground arith)
      | inl (_, done) ↦ (org_id, own, revoke_key-own key_id org_id w w' (ground arith))
    ]
  ]

  -- If DELETE /v1/organisations/api-keys/:key_id succeeds, the request carries the session of an
  -- active administrator who belongs to an organisation, and no key changes but, at most, those with
  -- that id in that organisation, which are revoked.
  pub delete_api_key_route-Administrator :
      (key_id : Uuid) (req : Request) (r : Response RevokedData) (w w' : World)
      → Passes ip_rate_limiter
      → delete_api_key_route ip_rate_limiter api_key_burst_limiter api_key_sustained_limiter key_id
          req w
        ≡ (ok r, w')
      → (user : User) × (org_id : Uuid) × Administrator req
          (record req { user = some (auth_user user) })
          user
          w
        × (user.org_id ≡ some org_id)
        × ((w'.api_keys ≡ w.api_keys)
            ⊎ (w'.api_keys ≡ update_where (is_key_of key_id org_id) revoke w.api_keys))
  unfolding delete_api_key_route auth_user
  delete_api_key_route-Administrator key_id req r w w' passes h =
      let gate = admin_gate ip_rate_limiter api_key_burst_limiter api_key_sustained_limiter in
      elim (Result-cases (gate req w).0) [
        | inr (e, failed) ↦ absurd (ground arith)
        | inl (known, done) ↦
            let w1 = (gate req w).1 in
            let (user, a, db) =
              admin_gate-Administrator req known w w1 passes (ap (λ x. (x, w1)) done) in
            let (org_id, own, keys) =
              revoke_key_handler-own key_id known (auth_user user) r w1 w' a.request
                (ground arith) in
            (
              user,
              org_id,
              record {
                session = a.session;
                listed = a.listed;
                active = a.active;
                role = a.role;
                request = refl;
              },
              own,
              rw db at keys,
            )
      ]
