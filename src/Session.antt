-- ===== src/Session.antt =====
-- The session service of backend/src/services/session/session.service.ts. Identifiers drawn at random
-- and the time are arguments; `Jwt` and the SHA-256 function are parameters.
pub mod Laws
mod Examples
pub mod Access
pub mod Rotation
use zk_auth.Prelude.{
  ℕ, ◌+◌, ◌*◌, ◌/◌, Bool, true, false, not, ◌&&◌, Option, none, some, List, [], ◌∷◌, ◌==◌, ltb,
  if◌then◌else◌,
}
use zk_auth.Errors.{
  Error, app_error, internal_error, token_expired, token_revoked, not_found, unauthorized_401,
}
use zk_auth.Effects.{M, ◌>>=◌, ◌>>◌, return, throw, try_catch, best_effort}
use zk_auth.Stores.{
  mem, get, set_ex, del, del_all, create, update, update_many, find_unique, find_many,
}
use zk_auth.Schema.{Backends, RiskLevel, low, SessionCacheEntry, SessionRow, UserRow, Device}
use zk_auth.World.{World, in_session_cache, in_session_rows, in_user_rows}
use zk_auth.Tokens.{
  Jwt, Claims, TokenType, access, refresh, access_key, refresh_key, Verdict, valid,
  token_expired_error, other_failure,
}

-- What a service reads of its environment and of other packages.
pub record Env : Type 1 where
  pub jwt : Jwt
  pub sha256 : Jwt.Token jwt → ℕ
  pub access_ttl_s : ℕ
  pub refresh_ttl_s : ℕ

-- The identifiers that `issue` draws.
pub record Draw : Type 0 where
  pub session_id : ℕ
  pub refresh_jti : ℕ

pub record AuthTokens (Token : Type 0) : Type 0 where
  pub access_token : Token
  pub refresh_token : Token
  pub expires_in : ℕ
  pub session_id : ℕ

abbrev pub is_refresh : TokenType → Bool
is_refresh refresh = true
is_refresh _ = false

abbrev pub is_access : TokenType → Bool
is_access access = true
is_access _ = false

abbrev pub access_claims : ℕ → ℕ → Claims
access_claims user sid = record { sub = user; sid = sid; risk = low; jti = 0; type = access }

abbrev pub refresh_claims : ℕ → Draw → Claims
refresh_claims user d = record {
  sub = user;
  sid = d.session_id;
  risk = low;
  jti = d.refresh_jti;
  type = refresh;
}

abbrev pub fresh_entry : ℕ → RiskLevel → ℕ → SessionCacheEntry
fresh_entry user risk now = record {
  user_id = user;
  risk_level = risk;
  step_up_required = false;
  step_up_level = none;
  created_at = now;
}

abbrev pub revoke_row : SessionRow → SessionRow
revoke_row row = record row { is_revoked = true }

-- `where: { userId, isRevoked: false }`
abbrev pub is_active_of : ℕ → ℕ → SessionRow → Bool
is_active_of user _ row = row.user_id == user && not row.is_revoked

module _ (B : Backends) (env : Env) where
  open env use {jwt, sha256, access_ttl_s, refresh_ttl_s}

  abbrev pub access_token_of : ℕ → ℕ → Draw → Jwt.Token jwt
  access_token_of now user d =
      Jwt.sign jwt access_key access_ttl_s now (access_claims user d.session_id)

  abbrev pub refresh_token_of : ℕ → ℕ → Draw → Jwt.Token jwt
  refresh_token_of now user d = Jwt.sign jwt refresh_key refresh_ttl_s now (refresh_claims user d)

  abbrev pub new_row : ℕ → ℕ → Device → Draw → SessionRow
  new_row now user device d = record {
    user_id = user;
    refresh_token_hash = sha256 (refresh_token_of now user d);
    device = device;
    risk_level = low;
    is_revoked = false;
    expires_at = (now / 1000 + refresh_ttl_s) * 1000;
    last_active_at = now;
  }

  unfoldable pub issue : ℕ → Draw → ℕ → Device → M (World B) (AuthTokens (Jwt.Token jwt))
  issue now d user device = do
    try_catch (in_session_rows (create B.session_rows d.session_id (new_row now user device d)))
        λ _. throw (app_error internal_error 500)
    best_effort (
        in_session_cache
          (set_ex B.session_cache now d.session_id (fresh_entry user low now) refresh_ttl_s))
    best_effort
        (in_user_rows (update B.user_rows user (λ u. record u { last_login_at = some now })))
    return (record {
      access_token = access_token_of now user d;
      refresh_token = refresh_token_of now user d;
      expires_in = access_ttl_s;
      session_id = d.session_id;
    })

  revoke_ids : List ℕ → M (World B) ℕ
  revoke_ids [] = return 0
  revoke_ids (id ∷ ids) = do
    count ← in_session_rows (update_many B.session_rows (λ k _. mem k (id ∷ ids)) revoke_row)
    best_effort (in_session_cache (del_all B.session_cache (id ∷ ids)))
    return count

  -- Revokes the sessions of a user that are not revoked, and replies how many there were.
  unfoldable pub revoke_all_for_user : ℕ → M (World B) ℕ
  unfolding revoke_ids
  revoke_all_for_user user = do
    session_ids ← in_session_rows (find_many B.session_rows (is_active_of user))
    revoke_ids session_ids

  -- The steps of `rotate` once the token is verified.
  rotate_row :
      ℕ
      → Draw
      → Jwt.Token jwt
      → Device
      → Claims
      → Option SessionRow
      → M (World B) (AuthTokens (Jwt.Token jwt))
  unfolding issue
  rotate_row now d raw device c none = throw (app_error token_revoked 401)
  rotate_row now d raw device c (some row) =
      if row.is_revoked
      then (revoke_all_for_user row.user_id >>= λ _. throw (app_error token_revoked 401))
      else if sha256 raw == row.refresh_token_hash
      then (do
        in_session_rows (update B.session_rows c.sid revoke_row)
        best_effort (in_session_cache (del B.session_cache now c.sid) >>= λ _. return tt)
        issue now d row.user_id device)
      else throw unauthorized_401

  rotate_claims :
      ℕ → Draw → Jwt.Token jwt → Device → Verdict → M (World B) (AuthTokens (Jwt.Token jwt))
  unfolding rotate_row
  rotate_claims now d raw device token_expired_error = throw (app_error token_expired 401)
  rotate_claims now d raw device other_failure = throw unauthorized_401
  rotate_claims now d raw device (valid c) =
      if is_refresh c.type
      then (do
        row ← in_session_rows (find_unique B.session_rows c.sid)
        rotate_row now d raw device c row)
      else throw unauthorized_401

  unfoldable pub rotate :
      ℕ → Draw → Jwt.Token jwt → Device → M (World B) (AuthTokens (Jwt.Token jwt))
  unfolding rotate_claims
  rotate now d raw device = rotate_claims now d raw device (Jwt.verify jwt refresh_key now raw)

  revoke_found : ℕ → ℕ → ℕ → Option SessionRow → M (World B) (Unit {0})
  revoke_found now session_id user none = throw (app_error not_found 404)
  revoke_found now session_id user (some row) =
      if row.user_id == user
      then (if row.is_revoked then return tt else (do
        in_session_rows (update B.session_rows session_id revoke_row)
        best_effort (in_session_cache (del B.session_cache now session_id) >>= λ _. return tt)))
      else throw (app_error not_found 404)

  unfoldable pub revoke_session : ℕ → ℕ → ℕ → M (World B) (Unit {0})
  unfolding revoke_found
  revoke_session now session_id user = do
    row ← in_session_rows (find_unique B.session_rows session_id)
    revoke_found now session_id user row

  -- The fallback to PostgreSQL when the session is not in the Redis cache.
  verify_row : ℕ → Claims → Option SessionRow → M (World B) Claims
  verify_row now c none = throw (app_error token_revoked 401)
  verify_row now c (some row) =
      if row.is_revoked
      then throw (app_error token_revoked 401)
      else if ltb row.expires_at now
      then throw (app_error token_expired 401)
      else (do
        best_effort (
            in_session_cache (
              set_ex B.session_cache now c.sid (fresh_entry c.sub row.risk_level now) access_ttl_s))
        return (record c { risk = row.risk_level }))

  verify_claims : ℕ → Verdict → M (World B) Claims
  unfolding verify_row
  verify_claims now token_expired_error = throw (app_error token_expired 401)
  verify_claims now other_failure = throw unauthorized_401
  verify_claims now (valid c) =
      if is_access c.type
      then (do
        cached ← in_session_cache (get B.session_cache now c.sid)
        elim cached [
          | some entry ↦ return (record c { risk = entry.risk_level })
          | none ↦ do row ← in_session_rows (find_unique B.session_rows c.sid); verify_row now c row
        ])
      else throw unauthorized_401

  unfoldable pub verify_access_token : ℕ → Jwt.Token jwt → M (World B) Claims
  unfolding verify_claims
  verify_access_token now raw = verify_claims now (Jwt.verify jwt access_key now raw)
