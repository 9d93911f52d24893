-- ===== src/Devices/Revocation.antt =====
-- What the revocation of a device leaves behind
-- (backend/src/controllers/session.controller.ts, `postRevokeSession`).
use zk_auth.Prelude.{
  ℕ, ◌≡◌, ap, ◌⊎◌, Bool, true, false, not, ◌&&◌, Option, none, ◌∷◌, arith, ◌==◌, if◌then◌else◌,
}
use zk_auth.Errors.{not_found_404, other_error}
use zk_auth.Effects.{Outcome, ok, err, Succeeds}
use zk_auth.Stores.{Keyspace, row-updated, mapped}
use zk_auth.Schema.{Backends, StepUpEntry, session_terminated}
use zk_auth.World.{World}
use zk_auth.Tokens.{Jwt, Claims, access_key, valid}
use zk_auth.Session.{Env, revoke_row, verify_access_token}
use zk_auth.Session.Laws.{session, cached, active}
use zk_auth.Session.Access.{owned_by}
use zk_auth.Risk.{RiskEnv}
use zk_auth.AuthGuard.{AuthenticatedSession}
use zk_auth.Login.{LoginEnv}
use zk_auth.Devices.{RevokeAnswer, already_revoked, revoked, post_revoke_session}

module _ (B : Backends) (env : LoginEnv) (risk : RiskEnv) where
  abbrev pub stepped : World B → ℕ → ℕ → Option StepUpEntry
  stepped w t id = Keyspace.live B.step_ups w.step_ups t id

  -- What the revocation of `id` does to the session `x`, seen at a time `t`.
  abbrev pub DeviceRevoked :
      Bool → AuthenticatedSession → ℕ → World B → ℕ → ℕ → Outcome (World B) RevokeAnswer → Type 0
  DeviceRevoked is_open s id w t x (ok revoked w') =
      (active B s.user_id (session B w id) ≡ true)
      × (session B w' x
          ≡ (if id == x then mapped B.session_rows revoke_row (session B w x) else session B w x))
      × (cached B w' t x ≡ (if id == x then none else cached B w t x))
      × (stepped w' t x
          ≡ (if id == x && not (Keyspace.down B.step_ups w.step_ups) then none else stepped w t x))
      × (w'.outbox ≡ (if is_open then (id, session_terminated) ∷ w.outbox else w.outbox))
  DeviceRevoked is_open s id w t x (ok already_revoked w') =
      (w' ≡ w)
      × (owned_by B env.session s.user_id (session B w id) ≡ true)
      × (active B s.user_id (session B w id) ≡ false)
  DeviceRevoked is_open s id w t x (err e w') =
      ((e ≡ not_found_404) × (w' ≡ w) × (owned_by B env.session s.user_id (session B w id) ≡ false))
      ⊎ ((e ≡ other_error)
          × (session B w' x ≡ session B w x)
          × (w'.outbox ≡ w.outbox)
          × ((cached B w' t x ≡ cached B w t x) ⊎ ((id ≡ x) × (cached B w' t x ≡ none))))

  -- A device is revoked only by its own user, and only once: then its row is revoked, its session is
  -- out of the Redis cache, its pending step-up is gone if Redis answers for it, its client is told if
  -- it is connected, and no other session changes. A session that is revoked already is left as it is.
  -- Every session that is not the user's, or is not there, is NOT_FOUND and nothing changes; on any
  -- other failure no row changes, and nothing but the cache entry of this session can be gone.
  pub post_revoke-DeviceRevoked :
      (now : ℕ) (is_open : Bool) (s : AuthenticatedSession) (id : ℕ) (w : World B) (t x : ℕ)
      → DeviceRevoked is_open s id w t x (post_revoke_session B env risk now is_open s id w)
  unfolding post_revoke_session
  post_revoke-DeviceRevoked now is_open s id w t x = ground (
    arith,
    row-updated B.session_rows id revoke_row w.session_rows x,
    Keyspace.live-remove B.session_cache id w.session_cache t x,
    Keyspace.live-remove B.step_ups id w.step_ups t x,
  )

  -- Once the handler has answered that a device is revoked, no access token of that session is ever
  -- accepted in the state that is left, whatever of Redis or PostgreSQL answers then.
  pub verify-post_revoke :
      (now : ℕ) (is_open : Bool) (s : AuthenticatedSession) (id : ℕ) (w w' : World B) (t : ℕ)
      (raw : Jwt.Token (Env.jwt env.session)) (c : Claims)
      → post_revoke_session B env risk now is_open s id w ≡ ok revoked w'
      → Jwt.verify (Env.jwt env.session) access_key t raw ≡ valid c
      → c.sid ≡ id
      → ¬ Succeeds (verify_access_token B env.session t raw w')
  unfolding verify_access_token
  verify-post_revoke now is_open s id w w' t raw c e v sid =
      let facts = post_revoke-DeviceRevoked now is_open s id w t id in
      let known : DeviceRevoked is_open s id w t id (ok revoked w') = rw e at facts in
      let gone : cached B w' t c.sid ≡ none = rw sid (ground (arith, known)) in
      let row = ap (session B w') sid in ground (arith, known, gone, row)
