-- ===== src/Session/Access.antt =====
-- Issuing, revoking and verifying one session (backend/src/services/session/session.service.ts).
use zk_auth.Prelude.{
  ℕ, ◌+◌, ◌*◌, ◌≤◌, ◌≡◌, ap, ◌≢◌, ◌⊎◌, Bool, true, false, not, ◌&&◌, Option, none, some, arith,
  ◌==◌, ltb, if◌then◌else◌,
}
use zk_auth.Errors.{
  app_error, internal_error, token_expired, token_revoked, not_found, other_error, unauthorized_401,
}
use zk_auth.Effects.{Outcome, ok, err, Succeeds, forget}
use zk_auth.Stores.{Table, Keyspace, row-updated, mapped}
use zk_auth.Schema.{Backends, SessionCacheEntry, SessionRow, Device, low}
use zk_auth.World.{World}
use zk_auth.Tokens.{Jwt, Claims, access_key, access, valid}
use zk_auth.Session.{
  Env, Draw, AuthTokens, fresh_entry, revoke_row, new_row, access_token_of, refresh_token_of, issue,
  revoke_session, verify_access_token, access_claims,
}
use zk_auth.Session.Laws.{session, cached, active}

module _ (B : Backends) (env : Env) where
  -- What `issue` does to the session `x`, seen at a time `t`.
  abbrev pub Issued :
      ℕ
      → Draw
      → ℕ
      → Device
      → World B
      → ℕ
      → ℕ
      → Outcome (World B) (AuthTokens (Jwt.Token env.jwt))
      → Type 0
  Issued now d user device w t x (ok tokens w') =
      (tokens ≡ record {
        access_token = access_token_of B env now user d;
        refresh_token = refresh_token_of B env now user d;
        expires_in = env.access_ttl_s;
        session_id = d.session_id;
      })
      × (session B w d.session_id ≡ none)
      × (session B w' x
          ≡ (if d.session_id == x then some (new_row B env now user device d) else session B w x))
      × (cached B w' t x ≡ (
          if d.session_id == x && not (Keyspace.down B.session_cache w.session_cache)
          then (if ltb t (now + env.refresh_ttl_s * 1000)
              then some (fresh_entry user low now)
              else none)
          else cached B w t x))
  Issued now d user device w t x (err e w') = (e ≡ app_error internal_error 500) × (w' ≡ w)

  -- `issue` either throws INTERNAL_ERROR and changes nothing, or adds under an identifier that had no
  -- row a session of the user with its tokens, and a cache entry of risk LOW for the lifetime of the
  -- refresh token if Redis answers; no other session changes.
  pub issue-Issued :
      (now : ℕ) (d : Draw) (user : ℕ) (device : Device) (w : World B) (t x : ℕ)
      → Issued now d user device w t x (issue B env now d user device w)
  unfolding issue
  issue-Issued now d user device w t x = ground (
    arith,
    Table.clash_sound B.session_rows w.session_rows d.session_id (new_row B env now user device d),
    Table.row-write B.session_rows d.session_id (new_row B env now user device d) w.session_rows x,
    Keyspace.live-put_ex B.session_cache now d.session_id (fresh_entry user low now)
        env.refresh_ttl_s w.session_cache t x,
  )

  -- What a verified access token gives, by the cache and, without a cache entry, by the row.
  abbrev pub decided :
      ℕ → Claims → Option SessionCacheEntry → Option SessionRow → Outcome (Unit {0}) Claims
  decided now c (some entry) row = ok (record c { risk = entry.risk_level }) tt
  decided now c none none = err (app_error token_revoked 401) tt
  decided now c none (some row) =
      if row.is_revoked
      then err (app_error token_revoked 401) tt
      else if ltb row.expires_at now
      then err (app_error token_expired 401) tt
      else ok (record c { risk = row.risk_level }) tt

  -- While the stores answer, an access token with a good signature is accepted with the risk level of
  -- the cache where the session is cached, whatever its row says. Otherwise PostgreSQL decides: the
  -- token is refused where the session is missing, revoked or expired, and else accepted with the risk
  -- level of the row.
  pub verify-decided :
      (now : ℕ) (raw : Jwt.Token env.jwt) (c : Claims) (w : World B)
      → Jwt.verify env.jwt access_key now raw ≡ valid c
      → c.type ≡ access
      → Keyspace.down B.session_cache w.session_cache ≡ false
      → Table.down B.session_rows w.session_rows ≡ false
      → forget (verify_access_token B env now raw w)
        ≡ decided now c (cached B w now c.sid) (session B w c.sid)
  unfolding verify_access_token
  verify-decided now raw c w e h up pg = ground arith

  -- A well-signed token of another type, such as a recovery token, is refused by UNAUTHORIZED, and
  -- nothing is read or changed.
  pub verify_wrong_type :
      (now : ℕ) (raw : Jwt.Token env.jwt) (c : Claims) (w : World B)
      → Jwt.verify env.jwt access_key now raw ≡ valid c
      → c.type ≢ access
      → verify_access_token B env now raw w ≡ err unauthorized_401 w
  unfolding verify_access_token
  verify_wrong_type now raw c w e h = ground arith

  -- The access token of a new session is accepted with risk LOW until it expires and refused as
  -- expired from then on, if Redis and PostgreSQL answer and access tokens do not outlive the session.
  pub verify-issue :
      (now : ℕ) (d : Draw) (user : ℕ) (device : Device) (tokens : AuthTokens (Jwt.Token env.jwt))
      (w w' : World B) (t : ℕ)
      → issue B env now d user device w ≡ ok tokens w'
      → env.access_ttl_s ≤ env.refresh_ttl_s
      → Keyspace.down B.session_cache w.session_cache ≡ false
      → Keyspace.down B.session_cache w'.session_cache ≡ false
      → Table.down B.session_rows w'.session_rows ≡ false
      → forget (verify_access_token B env t tokens.access_token w') ≡ (
          if ltb t (now + env.access_ttl_s * 1000)
          then ok (access_claims user d.session_id) tt
          else err (app_error token_expired 401) tt)
  unfolding verify_access_token
  verify-issue now d user device tokens w w' t e le up up' pg =
      let facts = issue-Issued now d user device w t d.session_id in
      let known : Issued now d user device w t d.session_id (ok tokens w') = rw e at facts in
      ground (
        arith,
        known,
        Jwt.verify-sign env.jwt access_key env.access_ttl_s now t (access_claims user d.session_id),
      )

  -- Whether the row is that of a session of the user.
  abbrev pub owned_by : ℕ → Option SessionRow → Bool
  owned_by user none = false
  owned_by user (some row) = row.user_id == user

  -- What `revoke_session` does to the session `x`.
  abbrev pub Revoked : ℕ → ℕ → ℕ → World B → ℕ → ℕ → Outcome (World B) (Unit {0}) → Type 0
  Revoked now id user w t x (ok _ w') =
      (owned_by user (session B w id) ≡ true)
      × (session B w' x
          ≡ (if id == x then mapped B.session_rows revoke_row (session B w x) else session B w x))
      × (cached B w' t x ≡ (
          if id == x
            && (active B user (session B w id)
                && not (Keyspace.down B.session_cache w.session_cache))
          then none
          else cached B w t x))
  Revoked now id user w t x (err e w') =
      ((e ≡ app_error not_found 404) ⊎ (e ≡ other_error)) × (w' ≡ w)

  -- `revoke_session` succeeds only for a session of the user, revokes its row, takes it out of the Redis
  -- cache if it was active and Redis answers, and changes no other session; where it throws, NOT_FOUND
  -- or a failure of the database, it changes nothing.
  pub revoke-Revoked :
      (now id user : ℕ) (w : World B) (t x : ℕ)
      → Revoked now id user w t x (revoke_session B env now id user w)
  unfolding revoke_session
  revoke-Revoked now id user w t x = ground (
    arith,
    row-updated B.session_rows id revoke_row w.session_rows x,
    Keyspace.live-remove B.session_cache id w.session_cache t x,
  )

  -- After an active session is revoked with Redis answering, no access token of that session is ever
  -- accepted again in the state that is left.
  pub verify-revoke :
      (now id user : ℕ) (w w' : World B) (t : ℕ) (raw : Jwt.Token env.jwt) (c : Claims)
      → revoke_session B env now id user w ≡ ok tt w'
      → active B user (session B w id) ≡ true
      → Keyspace.down B.session_cache w.session_cache ≡ false
      → Jwt.verify env.jwt access_key t raw ≡ valid c
      → c.sid ≡ id
      → ¬ Succeeds (verify_access_token B env t raw w')
  unfolding verify_access_token
  verify-revoke now id user w w' t raw c e was up v s =
      let facts = revoke-Revoked now id user w t id in
      let known : Revoked now id user w t id (ok tt w') = rw e at facts in
      let gone : cached B w' t c.sid ≡ none = rw s (ground (arith, known)) in
      let row = ap (session B w') s in ground (arith, known, gone, row)
