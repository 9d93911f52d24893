-- ===== src/Devices.antt =====
-- The handlers of backend/src/controllers/session.controller.ts: the resolution of a step-up, the state
-- of a session and the management of devices. A handler takes the session that the middleware
-- authenticated and the body that its schema parsed; all its times are one, and what is drawn at
-- random is an argument. Columns that are only passed on are left out.
pub mod StepUp
pub mod Revocation
mod Examples
use zk_auth.Prelude.{
  ℕ, Bool, true, false, not, ◌&&◌, Option, none, some, List, [], ◌∷◌, length, ltb, ◌==◌, is_some,
  if◌then◌else◌,
}
use zk_auth.Errors.{
  Error, app_error, forbidden_403, not_found_404, invalid_proof, replay, validation,
}
use zk_auth.Effects.{M, ok, err, ◌>>=◌, ◌>>◌, return, throw, best_effort}
use zk_auth.Stores.{Keyspace, Table, get, del, find_unique, find_many, update}
use zk_auth.Schema.{
  Backends, ChallengePayload, RiskLevel, StepUpEntry, StepUpLevel, SessionRow, step_up_resolved,
  session_terminated,
}
use zk_auth.World.{World, in_step_ups, in_session_cache, in_session_rows}
use zk_auth.Tokens.{Claims}
use zk_auth.Session.{Env, revoke_row, is_active_of, revoke_all_for_user}
use zk_auth.Challenge
use zk_auth.Challenge.{ChallengeRecord, fetch, consume}
use zk_auth.Nullifier.{exists, register}
use zk_auth.AuthGuard.{AuthenticatedSession}
use zk_auth.Risk.{RiskEnv, send, resolve_step_up}
use zk_auth.Zkp.{VerificationResult, ZkpEnv, verify}
use zk_auth.Login.{LoginEnv, VerifyBody, input_of, registration, check_proof}

pub record SessionView : Type 0 where
  pub session_id : ℕ
  pub user_id : ℕ
  pub risk_level : RiskLevel
  pub step_up_required : Bool
  pub step_up_level : Option StepUpLevel
  pub last_active_at : ℕ

pub record DeviceView : Type 0 where
  pub id : ℕ
  pub risk_level : RiskLevel
  pub last_active_at : ℕ
  pub step_up_required : Bool
  pub is_current : Bool

pub data RevokeAnswer : Type 0 where
  already_revoked revoked : RevokeAnswer

-- `where: { userId, isRevoked: false, expiresAt: { gt: now } }`
abbrev pub is_live_of : ℕ → ℕ → ℕ → SessionRow → Bool
is_live_of user now id row = is_active_of user id row && ltb now row.expires_at

abbrev pub level_of : Option StepUpEntry → Option StepUpLevel
level_of none = none
level_of (some entry) = some entry.required_level

module _ (B : Backends) (env : LoginEnv) (risk : RiskEnv) where
  challenge_if : ℕ → ℕ → ℕ → ℕ → Option StepUpEntry → M (World B) ChallengeRecord
  challenge_if now user id nonce none = throw forbidden_403
  challenge_if now user id nonce (some pending) =
      Challenge.issue B env.challenge_ttl_s now id nonce (some user)

  pub post_step_up_challenge : ℕ → AuthenticatedSession → ℕ → ℕ → M (World B) ChallengeRecord
  unfolding challenge_if
  post_step_up_challenge now session id nonce = do
    pending ← in_step_ups (get B.step_ups now session.session_id)
    challenge_if now session.user_id id nonce pending

  -- What follows the verification of the proof. The challenge is consumed before the nullifier is
  -- registered.
  pub resolve_verified :
      ℕ → Bool → AuthenticatedSession → VerifyBody → VerificationResult → M (World B) (Unit {0})
  resolve_verified now is_open session body r =
      if r.user_id == session.user_id
      then (do
        consume B now body.challenge_id
        register B env.lock_ttl_s now (registration B env body r)
        resolve_step_up B risk now session.session_id
        send B risk is_open session.session_id (step_up_resolved session.session_id))
      else throw (app_error invalid_proof 400)

  pub resolve_pending :
      ℕ → Bool → AuthenticatedSession → VerifyBody → Option StepUpEntry → M (World B) (Unit {0})
  unfolding resolve_verified
  resolve_pending now is_open session body none = throw forbidden_403
  resolve_pending now is_open session body (some pending) = do
    payload ← fetch B now body.challenge_id
    already_spent ← exists B (ZkpEnv.name env.zkp body.nullifier)
    r ← check_proof B env body payload already_spent
    resolve_verified now is_open session body r

  -- `is_open` is whether the WebSocket of the session is.
  unfoldable pub post_step_up_resolve :
      ℕ → Bool → AuthenticatedSession → VerifyBody → M (World B) (Unit {0})
  unfolding resolve_pending
  post_step_up_resolve now is_open session body = do
    pending ← in_step_ups (get B.step_ups now session.session_id)
    resolve_pending now is_open session body pending

  view_of : ℕ → AuthenticatedSession → Option SessionRow → M (World B) SessionView
  view_of now session none = throw not_found_404
  view_of now session (some row) = do
    step_up ← in_step_ups (get B.step_ups now session.session_id)
    return (record {
      session_id = session.session_id;
      user_id = session.user_id;
      risk_level = session.risk_level;
      step_up_required = is_some step_up;
      step_up_level = level_of step_up;
      last_active_at = row.last_active_at;
    })

  pub get_session_me : ℕ → AuthenticatedSession → M (World B) SessionView
  unfolding view_of
  get_session_me now session = do
    row ← in_session_rows (find_unique B.session_rows session.session_id)
    view_of now session row

  -- A command of the pipeline that fails counts as no pending step-up.
  abbrev pub has_step_up : ℕ → World B → ℕ → Bool
  has_step_up now w id =
      not (Keyspace.down B.step_ups w.step_ups)
      && is_some (Keyspace.live B.step_ups w.step_ups now id)

  abbrev pub device_view : ℕ → AuthenticatedSession → World B → ℕ → SessionRow → DeviceView
  device_view now session w id row = record {
    id = id;
    risk_level = row.risk_level;
    last_active_at = row.last_active_at;
    step_up_required = has_step_up now w id;
    is_current = id == session.session_id;
  }

  pub device_views : ℕ → AuthenticatedSession → World B → List ℕ → List DeviceView
  device_views now session w [] = []
  device_views now session w (id ∷ ids) =
      let rest = device_views now session w ids in
      elim (Table.row B.session_rows w.session_rows id) [
        | none ↦ rest
        | some row ↦ device_view now session w id row ∷ rest
      ]

  -- In the order of the table's keys; the handler has them ordered by the database.
  pub get_devices : ℕ → AuthenticatedSession → M (World B) (List DeviceView)
  unfolding device_views
  get_devices now session = do
    ids ← in_session_rows (find_many B.session_rows (is_live_of session.user_id now))
    λ w. ok (device_views now session w ids) w

  -- Redis first, and the step-up key of the session at best, then PostgreSQL and the WebSocket.
  revoke_target : ℕ → Bool → AuthenticatedSession → ℕ → Option SessionRow → M (World B) RevokeAnswer
  unfolding send
  revoke_target now is_open session id none = throw not_found_404
  revoke_target now is_open session id (some target) =
      if target.user_id == session.user_id
      then (if target.is_revoked then return already_revoked else (do
        redis_deleted ← in_session_cache (del B.session_cache now id)
        best_effort (in_step_ups (del B.step_ups now id) >>= λ _. return tt)
        in_session_rows (update B.session_rows id revoke_row)
        send B risk is_open id session_terminated
        return revoked))
      else throw not_found_404

  unfoldable pub post_revoke_session :
      ℕ → Bool → AuthenticatedSession → ℕ → M (World B) RevokeAnswer
  unfolding revoke_target
  post_revoke_session now is_open session id = do
    target ← in_session_rows (find_unique B.session_rows id)
    revoke_target now is_open session id target

  pub delete_all_sessions : AuthenticatedSession → M (World B) ℕ
  delete_all_sessions session = revoke_all_for_user B env.session session.user_id
