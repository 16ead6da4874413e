-- ===== src/Tasks/Signups.antt =====
-- What a signup does to the events, the queue and the work put off, however it ends:
-- src/services/organisation/organisation.service.ts.
use mathlib.Core.Path.{subst}
use hashira_be_railway_deplo.Base.{
  ◌+◌, ◌≤◌, ◌≡◌, ◌∙◌, ap, ◌⊎◌, inl, inr, true, [], ◌∷◌, ◌++◌, Text, text_eq, any, arith, Bool-cases,
  Option-cases,
}
use hashira_be_railway_deplo.Base.Strings.{truthy}
use hashira_be_railway_deplo.Entities.{Uuid, Date, User}
use hashira_be_railway_deplo.Platform.{Platform, JwtPayload}
use hashira_be_railway_deplo.World.{World, activate_org}
use hashira_be_railway_deplo.World.Monad.{Result-cases}
use hashira_be_railway_deplo.Repositories.Organisations.{
  CreateOrgWithAdminInput, CreateOrgWithAdminResult, create_org_with_admin, find_org_by_name,
}
use hashira_be_railway_deplo.Repositories.Users.{find_user_by_email}
use hashira_be_railway_deplo.Auth.Session.{open_session}
use hashira_be_railway_deplo.Organisations.Service.{
  CreateOrgBody, choose_admin, find_registered, checkout_url, admin_payload, open_account,
  schedule_activation, finish_signup, create_org,
}
use hashira_be_railway_deplo.Tasks.Idle.{Idle}

module _ ⦃p : Platform⦄ where
  -- The events, the queue and the tasks are as they were, and calls are only added.
  abbrev Stays : World → World → Type 0
  Stays w v = (v.events ≡ w.events) × Idle w v

  choose_admin-Stays : (body : CreateOrgBody) (w : World) → Stays w (choose_admin body w).1
  unfolding choose_admin
  choose_admin-Stays body w = elim (Option-cases (truthy body.google_id_token)) [
    | inl absent ↦ elim (Option-cases body.password) [
      | inl unset ↦ ground arith
      | inr (password, given) ↦ ground arith
    ]
    | inr (token, given) ↦ elim (Option-cases (p.google_verify token w.now)) [
      | inl refused ↦ ground arith
      | inr (claims, verified) ↦ ground arith
    ]
  ]

  create_org_with_admin-Stays :
      (input : CreateOrgWithAdminInput) (w : World) → Stays w (create_org_with_admin input w).1
  unfolding create_org_with_admin
  create_org_with_admin-Stays input w = ground arith

  checkout_url-Stays :
      (email : Text) (org_id : Uuid) (w : World) → Stays w (checkout_url email org_id w).1
  unfolding checkout_url
  checkout_url-Stays email org_id w = elim (Bool-cases p.skip_ses) [
    | inl skipped ↦ ground arith
    | inr asked ↦ elim (Result-cases (p.stripe_checkout w.calls email org_id)) [
      | inl (url, answered) ↦ ground arith
      | inr (e, failed) ↦ ground arith
    ]
  ]

  open_session-Stays : (payload : JwtPayload) (w : World) → Stays w (open_session payload w).1
  unfolding open_session
  open_session-Stays payload w =
      elim (Bool-cases
        (any (λ t. text_eq t.token_hash (p.sha256 (p.random_token w.calls))) w.refresh_tokens)) [
          | inl taken ↦ ground arith
          | inr free ↦ ground arith
        ]

  open_account-Stays :
      (email : Text) (c : CreateOrgWithAdminResult) (w : World) → Stays w (open_account email c w).1
  unfolding open_account
  open_account-Stays email c w =
      let v = (checkout_url email c.org.org_id w).1 in
      let first = checkout_url-Stays email c.org.org_id w in
      let second = open_session-Stays (admin_payload email c) v in
      elim (Result-cases (checkout_url email c.org.org_id w).0) [
        | inr (e, failed) ↦ ground (arith, first)
        | inl (url, paid) ↦ elim (Result-cases (open_session (admin_payload email c) v).0) [
          | inr (e, failed) ↦ ground (arith, first, second)
          | inl (s, opened) ↦ ground (arith, first, second)
        ]
      ]

  -- At most one activation is put off, and nothing else is touched.
  pub record PutsOff (w v : World) : Type 0 where
    pub events : v.events ≡ w.events
    pub queue : v.anchor_queue ≡ w.anchor_queue
    pub calls : w.calls ≤ v.calls
    pub tasks :
        (v.tasks ≡ w.tasks)
        ⊎ ((org_id : Uuid) × (due : Date) × (v.tasks ≡ w.tasks ++ activate_org org_id due ∷ []))

  Stays-PutsOff : (u v : World) → Stays u v → PutsOff u v
  Stays-PutsOff u v (events, (tasks, queue, calls)) = record {
    events = events;
    queue = queue;
    calls = calls;
    tasks = inl tasks;
  }

  Stays-then_PutsOff : (u v w : World) → Stays u v → PutsOff v w → PutsOff u w
  Stays-then_PutsOff u v w (events, (tasks, queue, calls)) o = record {
    events = o.events ∙ events;
    queue = o.queue ∙ queue;
    calls = omega (arith, calls, o.calls);
    tasks = elim o.tasks [
      | inl same ↦ inl (same ∙ tasks)
      | inr (org_id, due, put) ↦
          inr (org_id, due, put ∙ ap (λ ts. ts ++ activate_org org_id due ∷ []) tasks)
    ];
  }

  finish_signup-PutsOff :
      (email : Text) (c : CreateOrgWithAdminResult) (w : World)
      → PutsOff w (finish_signup email c w).1
  unfolding finish_signup schedule_activation
  finish_signup-PutsOff email c w =
      let v = record w { tasks = w.tasks ++ activate_org c.org.org_id (w.now + 5000) ∷ [] } in
      elim (Bool-cases p.production) [
        | inl live ↦
            let stays = open_account-Stays email c w in
            Stays-PutsOff w (finish_signup email c w).1 (ground (arith, stays))
        | inr dev ↦
            let stays = open_account-Stays email c v in
            record {
              events = ground (arith, stays);
              queue = ground (arith, stays);
              calls = ground (arith, stays);
              tasks = inr (c.org.org_id, w.now + 5000, ground (arith, stays));
            }
      ]

  -- However a signup ends, it leaves the events and the queue alone and puts off at most the
  -- activation of an organisation.
  pub create_org-PutsOff : (body : CreateOrgBody) (w : World) → PutsOff w (create_org body w).1
  unfolding create_org find_org_by_name find_registered find_user_by_email
  create_org-PutsOff body w =
      let w1 = (choose_admin body w).1 in
      let s1 = choose_admin-Stays body w in
      let ends = (create_org body w).1 in
      elim (Option-cases (p.find_one (λ o. text_eq o.name body.org_name) w.organisations)) [
        | inr (o, taken) ↦ Stays-PutsOff w ends (ground arith)
        | inl free ↦ elim (Result-cases (choose_admin body w).0) [
          | inr (e, failed) ↦ Stays-PutsOff w ends (ground (arith, s1))
          | inl (admin, chose) ↦ elim (Option-cases admin.admin_email) [
            | inl absent ↦ elim (Option-cases (p.find_one (λ (u : User). true) w1.users)) [
              | inr (u, known) ↦ Stays-PutsOff w ends (ground (arith, s1))
              | inl unknown ↦ Stays-PutsOff w ends (ground (arith, s1))
            ]
            | inr (email, given) ↦
                elim (Option-cases (p.find_one (λ u. text_eq u.email email) w1.users)) [
                  | inr (u, known) ↦ Stays-PutsOff w ends (ground (arith, s1))
                  | inl unknown ↦
                      let input : CreateOrgWithAdminInput = record {
                        org_name = body.org_name;
                        admin_email = email;
                        password_hash = admin.password_hash;
                        google_sub = admin.google_sub;
                      } in
                      let w2 = (create_org_with_admin input w1).1 in
                      let s2 = create_org_with_admin-Stays input w1 in
                      elim (Result-cases (create_org_with_admin input w1).0) [
                        | inr (e, failed) ↦ Stays-PutsOff w ends (ground (arith, s1, s2))
                        | inl (c, created) ↦
                            let last : (finish_signup email c w2).1 ≡ ends = ground arith in
                            subst (PutsOff w) last (
                              Stays-then_PutsOff w w1 (finish_signup email c w2).1 s1 (
                                Stays-then_PutsOff w1 w2 (finish_signup email c w2).1 s2
                                  (finish_signup-PutsOff email c w2)))
                      ]
                ]
          ]
        ]
      ]
