-- ===== src/Controllers/Routes/Posted.antt =====
-- What POST /v1/events of src/routes/event/event.routes.ts has checked when it hands an event over.
use hashira_be_railway_deplo.Base.{
  ◌≡◌, refl, ap, ◌∙◌, ◌==◌, inl, inr, Bool, true, Option, some, Text, arith, Option-cases,
  Bool-cases,
}
use hashira_be_railway_deplo.Types.{ApiKeyPermission, has_permission, ok}
use hashira_be_railway_deplo.Platform.{Platform}
use hashira_be_railway_deplo.World.{World, Database}
use hashira_be_railway_deplo.World.Monad.{App, Result-cases, >>=-ok, ◌>>=◌}
use hashira_be_railway_deplo.Repositories.ApiKeys.{
  find_api_key_by_hash, touch_last_used, is_live_key,
}
use hashira_be_railway_deplo.Repositories.Organisations.{find_org_by_id}
use hashira_be_railway_deplo.ApiKeys.Service.{ValidatedApiKey, validate_api_key}
use hashira_be_railway_deplo.ApiKeys.Service.Validation.{Validated, validate_api_key-Validated}
use hashira_be_railway_deplo.Middleware.Access.{
  Request, validate_key_header, validate_api_key_permission, given_key,
}
use hashira_be_railway_deplo.Events.Ingestion.{
  CreateEventBody, IngestEventInput, IngestEventResult, ingest,
}
use hashira_be_railway_deplo.Controllers.Http.{Response, reply}
use hashira_be_railway_deplo.Controllers.Events.{
  create_event_handler, idempotency_key_of, is_too_long,
}
use hashira_be_railway_deplo.Controllers.Validators.{validate_body, valid_event}
use hashira_be_railway_deplo.Controllers.Routes.{post_event_route}
use hashira_be_railway_deplo.Controllers.Routes.Admitted.{Passes}

module _ ⦃p : Platform⦄ where
  validate_api_key-events : (key : Text) (w : World) → (validate_api_key key w).1.events ≡ w.events
  unfolding validate_api_key find_api_key_by_hash find_org_by_id touch_last_used
  validate_api_key-events key w =
      elim (Option-cases (p.find_one (is_live_key (p.sha256 key)) w.api_keys)) [
        | inl missed ↦ ground arith
        | inr (row, found) ↦
            elim (Option-cases (p.find_one (λ o. o.org_id == row.org_id) w.organisations)) [
              | inl missed ↦ ground arith
              | inr (org, looked) ↦ ground arith
            ]
      ]

  -- What is ingested for a key.
  abbrev pub posted_input : Option Text → CreateEventBody → ValidatedApiKey → IngestEventInput
  posted_input header body ctx = record {
    org_id = ctx.org_id;
    api_key_id = ctx.key_id;
    user_id = ctx.user_id;
    payload = body;
    idempotency_key = idempotency_key_of header;
  }

  validate_key_header-Validated :
      (req req' : Request) (w w' : World)
      → validate_key_header req w ≡ (ok req', w')
      → (key : Text) × (ctx : ValidatedApiKey) × (given_key req ≡ some key)
        × Validated key ctx w
        × (req' ≡ record req { api_key = some ctx })
        × (w'.events ≡ w.events)
  unfolding validate_key_header
  validate_key_header-Validated req req' w w' h = elim (Option-cases (given_key req)) [
    | inl absent ↦ absurd (ground arith)
    | inr (key, given) ↦ elim (Result-cases (validate_api_key key w).0) [
      | inr (e, failed) ↦ absurd (ground arith)
      | inl (ctx, done) ↦
          let w1 = (validate_api_key key w).1 in
          (
            key,
            ctx,
            given,
            validate_api_key-Validated key ctx w w1 (ap (λ x. (x, w1)) done),
            ground arith,
            ground (arith, validate_api_key-events key w),
          )
    ]
  ]

  validate_api_key_permission-permitted :
      (req req' : Request) (ctx : ValidatedApiKey) (w w' : World)
      → req.api_key ≡ some ctx
      → validate_api_key_permission ApiKeyPermission.events_write req w ≡ (ok req', w')
      → (has_permission ApiKeyPermission.events_write ctx.permissions ≡ true)
        × (req' ≡ req)
        × (w' ≡ w)
  unfolding validate_api_key_permission
  validate_api_key_permission-permitted req req' ctx w w' shown h =
      elim (Bool-cases (has_permission ApiKeyPermission.events_write ctx.permissions)) [
        | inl permitted ↦ (permitted, ground arith, ground arith)
        | inr refused ↦ absurd (ground arith)
      ]

  validate_body-fits :
      (fits : Bool) (w w' : World) → validate_body fits w ≡ (ok tt, w') → (fits ≡ true) × (w' ≡ w)
  unfolding validate_body
  validate_body-fits true w w' h = (refl, ground arith)
  validate_body-fits Bool.false w w' h = absurd (ground arith)

  create_event_handler-ingest :
      (header : Option Text) (body : CreateEventBody) (req : Request) (ctx : ValidatedApiKey)
      (r : Response IngestEventResult) (w w' : World)
      → req.api_key ≡ some ctx
      → create_event_handler header body req w ≡ (ok r, w')
      → (is_too_long (idempotency_key_of header) ≡ Bool.false)
        × (ingest (posted_input header body ctx) w ≡ (ok r.body, w'))
        × (r.status ≡ 202)
  unfolding create_event_handler reply
  create_event_handler-ingest header body req ctx r w w' known h =
      elim (Result-cases (ingest (posted_input header body ctx) w).0) [
        | inr (e, failed) ↦ absurd (ground arith)
        | inl (result, done) ↦ (ground arith, ground arith, ground arith)
      ]

  pub record Posted (header : Option Text) (timestamp : Text) (body : CreateEventBody)
      (req : Request) (r : Response IngestEventResult) (w w' : World) : Type 0 where
    pub key : Text
    pub ctx : ValidatedApiKey
    pub between : World
    pub given : given_key req ≡ some key
    pub accepted : Validated key ctx w
    pub permitted : has_permission ApiKeyPermission.events_write ctx.permissions ≡ true
    pub fits : valid_event timestamp body ≡ true
    pub short : is_too_long (idempotency_key_of header) ≡ Bool.false
    pub events : between.events ≡ w.events
    pub ingested : ingest (posted_input header body ctx) between ≡ (ok r.body, w')
    pub status : r.status ≡ 202

  module _ (ip_rate_limiter burst sustained : Request → App Request) where
    -- The route from each of its steps on.
    module _ (header : Option Text) (timestamp : Text) (body : CreateEventBody) where
      abbrev from_body : Request → App (Response IngestEventResult)
      from_body slow =
          validate_body (valid_event timestamp body) >>= λ _. create_event_handler header body slow

      abbrev from_sustained : Request → App (Response IngestEventResult)
      from_sustained calm = sustained calm >>= from_body

      abbrev from_burst : Request → App (Response IngestEventResult)
      from_burst permitted = burst permitted >>= from_sustained

      abbrev from_permission : Request → App (Response IngestEventResult)
      from_permission with_key =
          validate_api_key_permission ApiKeyPermission.events_write with_key >>= from_burst

    -- If POST /v1/events succeeds, its key is one that the service accepts, with the permission to
    -- write events; the body fits the schema and the idempotency key has at most 255 characters; and
    -- what is answered is the ingestion of that body in the name of the key, its organisation and
    -- its user, with the events as they were.
    pub post_event_route-Posted :
        (header : Option Text) (timestamp : Text) (body : CreateEventBody) (req : Request)
        (r : Response IngestEventResult) (w w' : World)
        → Passes burst
        → Passes sustained
        → post_event_route ip_rate_limiter burst sustained header timestamp body req w ≡ (ok r, w')
        → Posted header timestamp body req r w w'
    unfolding post_event_route
    post_event_route-Posted header timestamp body req r w w' passes1 passes2 h =
        let w1 = (validate_key_header req w).1 in
        let (req1, keyed, h1) =
          >>=-ok (validate_key_header req) (from_permission header timestamp body) w w' r h in
        let (key, ctx, given, accepted, put, events) =
          validate_key_header-Validated req req1 w w1 keyed in
        let allow = validate_api_key_permission ApiKeyPermission.events_write in
        let (req2, permit, h2) =
          >>=-ok (allow req1) (from_burst header timestamp body) w1 w' r h1 in
        let w2 = (allow req1 w1).1 in
        let (permitted, same2, still2) =
          validate_api_key_permission-permitted req1 req2 ctx w1 w2
            (ap (λ (q : Request). q.api_key) put) permit in
        let (req3, calm, h3) =
          >>=-ok (burst req2) (from_sustained header timestamp body) w2 w' r h2 in
        let w3 = (burst req2 w2).1 in
        let (same3, db3) = passes1 req2 req3 w2 w3 calm in
        let (req4, slow, h4) =
          >>=-ok (sustained req3) (from_body header timestamp body) w3 w' r h3 in
        let w4 = (sustained req3 w3).1 in
        let (same4, db4) = passes2 req3 req4 w3 w4 slow in
        let (_, checked, h5) =
          >>=-ok (validate_body (valid_event timestamp body))
            (λ _. create_event_handler header body req4) w4 w' r h4 in
        let (fits, still5) =
          validate_body-fits (valid_event timestamp body) w4
            (validate_body (valid_event timestamp body) w4).1 checked in
        let shown : req4.api_key ≡ some ctx =
          ap (λ (q : Request). q.api_key) (same4 ∙ same3 ∙ same2 ∙ put) in
        let (short, ingested, status) =
          create_event_handler-ingest header body req4 ctx r w4 w' shown (rw still5 at h5) in
        record {
          key = key;
          ctx = ctx;
          between = w4;
          given = given;
          accepted = accepted;
          permitted = permitted;
          fits = fits;
          short = short;
          events =
              ap (λ (d : Database). d.events) (db4 ∙ db3)
              ∙ ap (λ (v : World). v.events) still2
              ∙ events;
          ingested = ingested;
          status = status;
        }
