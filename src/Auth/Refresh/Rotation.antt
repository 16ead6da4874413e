-- ===== src/Auth/Refresh/Rotation.antt =====
-- What a rotation of src/services/auth/refresh.service.ts does to the table of refresh tokens.
use hashira_be_railway_deplo.Base.{
  ℕ, ◌≡◌, refl, sym, ◌∙◌, ◌≢◌, ◌+◌, ap, inl, inr, true, false, some, List, [], ◌∷◌, ◌++◌, Memᴰ, All,
  All-append, All-impl, Option-cases, Bool-cases, Text, text_eq, text_eq_iff, any, arith, ◌==◌,
}
use hashira_be_railway_deplo.Types.{ok, err, auth_error, unauthorized}
use hashira_be_railway_deplo.Entities.{Date, User, RefreshToken}
use hashira_be_railway_deplo.Platform.{Platform}
use hashira_be_railway_deplo.World.{World}
use hashira_be_railway_deplo.Repositories.Sql.{update_where}
use hashira_be_railway_deplo.Repositories.Rows.{
  find_one-none_of_All, All-mem, Distinct, Distinct-mem, Distinct-append, Distinct-update_where,
  All-ne_of_any, All-key_of_update_where, All-update_where_rows, All-update_where_every,
}
use hashira_be_railway_deplo.Repositories.RefreshTokens.{mark_refresh_used, is_live_refresh}
use hashira_be_railway_deplo.Auth.Session.{refresh_token_ttl_ms, payload_of}
use hashira_be_railway_deplo.Auth.Refresh.{RefreshResult, rotate_refresh_token, logout}

module _ ⦃p : Platform⦄ where
  -- What a rotation that returns has found and written.
  pub record Rotated (raw : Text) (w w' : World) (r : RefreshResult) : Type 0 where
    pub existing : RefreshToken
    pub user : User
    pub new : RefreshToken
    pub found : p.find_one (is_live_refresh (p.sha256 raw) w.now) w.refresh_tokens ≡ some existing
    pub owner : p.find_one (λ u. u.user_id == existing.user_id) w.users ≡ some user
    pub new_hash : new.token_hash ≡ p.sha256 r.refresh_token
    pub new_user : new.user_id ≡ user.user_id
    pub new_unused : new.used ≡ false
    pub new_expiry : new.expires_at ≡ w.now + refresh_token_ttl_ms
    pub fresh :
        any
          (λ t. text_eq t.token_hash new.token_hash)
          (update_where (λ t. t.id == existing.id) mark_refresh_used w.refresh_tokens)
        ≡ false
    pub table :
        w'.refresh_tokens
        ≡ update_where (λ t. t.id == existing.id) mark_refresh_used w.refresh_tokens ++ new ∷ []
    pub session : r.session_token ≡ p.jwt_sign (payload_of user) w.now

  rotate_refresh_token-Rotated :
      (raw : Text) (w w' : World) (r : RefreshResult)
      → rotate_refresh_token raw w ≡ (ok r, w')
      → Rotated raw w w' r
  unfolding rotate_refresh_token
  rotate_refresh_token-Rotated raw w w' r h =
      elim (Option-cases (p.find_one (is_live_refresh (p.sha256 raw) w.now) w.refresh_tokens)) [
        | inl missed ↦ absurd (ground arith)
        | inr (existing, found) ↦
            elim (Option-cases (p.find_one (λ u. u.user_id == existing.user_id) w.users)) [
              | inl missed ↦ absurd (ground arith)
              | inr (user, owner) ↦
                  let new : RefreshToken = record {
                    id = p.uuid (w.calls + 1);
                    token_hash = p.sha256 (p.random_token w.calls);
                    user_id = user.user_id;
                    expires_at = w.now + refresh_token_ttl_ms;
                    used = false;
                    created_at = w.now;
                  } in
                  record {
                    existing = existing;
                    user = user;
                    new = new;
                    found = found;
                    owner = owner;
                    new_hash = ground arith;
                    new_user = ground arith;
                    new_unused = ground arith;
                    new_expiry = ground arith;
                    fresh = ground arith;
                    table = ground arith;
                    session = ground arith;
                  }
            ]
      ]

abbrev pub stored_hash : RefreshToken → Text
stored_hash t = t.token_hash

-- Every row with the hash has been used.
abbrev pub IsSpent : Text → List RefreshToken → Type 0
IsSpent token_hash = All (λ t. t.token_hash ≡ token_hash → t.used ≡ true)

-- No two rows share their hash: the unique column of src/entities/refresh-token.entity.ts.
abbrev pub HasUniqueHashes : List RefreshToken → Type 0
HasUniqueHashes = Distinct stored_hash

not-is_live_refresh :
    (token_hash : Text) (now : Date) (t : RefreshToken)
    → (t.token_hash ≡ token_hash → t.used ≡ true)
    → is_live_refresh token_hash now t ≡ false
unfolding is_live_refresh
not-is_live_refresh token_hash now t spent = elim (Bool-cases (text_eq t.token_hash token_hash)) [
  | inl same ↦ rw (spent ((text_eq_iff _ _).0 same), same)
  | inr other ↦ rw other
]

token_hash-of_is_live_refresh :
    (token_hash : Text) (now : Date) (t : RefreshToken)
    → is_live_refresh token_hash now t ≡ true
    → t.token_hash ≡ token_hash
unfolding is_live_refresh
token_hash-of_is_live_refresh token_hash now t live =
    ground (arith, text_eq_iff t.token_hash token_hash)

token_hash-mark_refresh_used : (t : RefreshToken) → (mark_refresh_used t).token_hash ≡ t.token_hash
unfolding mark_refresh_used
token_hash-mark_refresh_used t = refl

-- Marking the one row that has the hash spends the hash.
IsSpent-update_where :
    (rows : List RefreshToken) (e : RefreshToken)
    → HasUniqueHashes rows
    → Memᴰ e rows
    → IsSpent e.token_hash (update_where (λ t. t.id == e.id) mark_refresh_used rows)
unfolding mark_refresh_used
IsSpent-update_where rows e unique listed =
    All-update_where_rows (λ t. t.token_hash ≡ e.token_hash → t ≡ e)
      (λ t. t.token_hash ≡ e.token_hash → t.used ≡ true) (λ t. t.id == e.id) mark_refresh_used rows
      (λ t same hit eq. refl)
      (λ t same miss eq. absurd (ground (arith, ap (λ (o : RefreshToken). o.id) (same eq))))
      (Distinct-mem stored_hash rows e unique listed)

module _ ⦃p : Platform⦄ where
  -- A token whose hash is spent is refused, whatever the time, and nothing changes.
  pub rotate_refresh_token_spent :
      (raw : Text) (w : World)
      → IsSpent (p.sha256 raw) w.refresh_tokens
      → rotate_refresh_token raw w ≡ (err (auth_error unauthorized), w)
  unfolding rotate_refresh_token
  rotate_refresh_token_spent raw w spent =
      let missed =
        find_one-none_of_All p.query (is_live_refresh (p.sha256 raw) w.now) w.refresh_tokens
          (All-impl _ _ w.refresh_tokens (not-is_live_refresh (p.sha256 raw) w.now) spent) in
      ground arith

  -- A rotation spends its token: the row that it found is marked, and the new row has another hash.
  pub rotate_refresh_token-IsSpent :
      (raw : Text) (w w' : World) (r : RefreshResult)
      → HasUniqueHashes w.refresh_tokens
      → rotate_refresh_token raw w ≡ (ok r, w')
      → IsSpent (p.sha256 raw) w'.refresh_tokens × HasUniqueHashes w'.refresh_tokens
  rotate_refresh_token-IsSpent raw w w' r unique h =
      let c = rotate_refresh_token-Rotated raw w w' r h in
      let rows = w.refresh_tokens in
      let e = c.existing in
      let (listed, live) = p.query.find_one-sound _ rows e c.found in
      let same = token_hash-of_is_live_refresh (p.sha256 raw) w.now e live in
      let free = All-ne_of_any stored_hash c.new.token_hash _ c.fresh in
      let free_before =
        All-key_of_update_where stored_hash (λ k. k ≢ c.new.token_hash) _ mark_refresh_used rows
          token_hash-mark_refresh_used free in
      rw c.table (
        All-append _ _ (c.new ∷ []) (rw same at (IsSpent-update_where rows e unique listed)) (
          (λ eq.
              absurd (
                All-mem (λ o. stored_hash o ≢ c.new.token_hash) free_before listed
                  (same ∙ sym eq))),
          tt,
        ),
        Distinct-append stored_hash _ c.new
            (Distinct-update_where stored_hash _ mark_refresh_used rows token_hash-mark_refresh_used
              unique)
            free,
      )

  -- A refresh token works once: where the hashes of refresh tokens are unique, after a rotation that
  -- returned, a second one with the same token is refused and changes nothing, at any time at which
  -- the table of refresh tokens is as the first one left it.
  pub rotate_refresh_token_single_use :
      (raw : Text) (w w' later : World) (r : RefreshResult)
      → HasUniqueHashes w.refresh_tokens
      → rotate_refresh_token raw w ≡ (ok r, w')
      → later.refresh_tokens ≡ w'.refresh_tokens
      → rotate_refresh_token raw later ≡ (err (auth_error unauthorized), later)
  rotate_refresh_token_single_use raw w w' later r unique h same =
      rotate_refresh_token_spent raw later
        (rw same (rotate_refresh_token-IsSpent raw w w' r unique h).0)

  -- After a logout with a non-empty refresh token in the cookie, a rotation of that token is refused
  -- and changes nothing, at any time at which the table of refresh tokens is as the logout left it.
  pub rotate_refresh_token-logout :
      (c : ℕ) (cs : Text) (w later : World)
      → later.refresh_tokens ≡ (logout (some (c ∷ cs)) w).1.refresh_tokens
      → rotate_refresh_token (c ∷ cs) later ≡ (err (auth_error unauthorized), later)
  unfolding logout mark_refresh_used
  rotate_refresh_token-logout c cs w later same = rotate_refresh_token_spent (c ∷ cs) later (
      rw same (
        All-update_where_every (λ t. t.token_hash ≡ p.sha256 (c ∷ cs) → t.used ≡ true) _
          mark_refresh_used w.refresh_tokens (λ t hit eq. refl)
          (λ t miss eq. ground (arith, text_eq_iff t.token_hash (p.sha256 (c ∷ cs))))))
