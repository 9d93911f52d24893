-- ===== src/Risk.antt =====
-- The risk service of backend/src/services/session/risk.service.ts and the gate of
-- backend/src/middleware/riskGate.middleware.ts. A score between 0 and 1 is a number on a fixed scale,
-- and so are the two thresholds it is compared with.
pub mod Laws
mod Examples
pub mod Gate
pub mod Frame
use zk_auth.Prelude.{ℕ, ◌+◌, ◌*◌, Bool, true, false, Option, none, some, ◌∷◌, leb, if◌then◌else◌}
use zk_auth.Errors.{step_up_403}
use zk_auth.Effects.{M, ◌>>=◌, ◌>>◌, ok, return, throw, best_effort}
use zk_auth.Stores.{get, set_ex, set_keep, del, insert}
use zk_auth.Schema.{
  Backends, RiskLevel, low, StepUpLevel, soft, hard, SessionCacheEntry, StepUpEntry, RiskScoreRow,
  WsMessage, risk_update, step_up_event,
}
use zk_auth.World.{World, in_session_cache, in_step_ups, in_risk_scores}
use zk_auth.Session.{fresh_entry}

-- The thresholds and the lifetime of a pending step-up (backend/src/config/env.ts).
pub record RiskEnv : Type 0 where
  pub soft_threshold : ℕ
  pub hard_threshold : ℕ
  pub step_up_ttl_s : ℕ

-- `IncomingRiskScore`
pub record IncomingRiskScore : Type 0 where
  pub session_id : ℕ
  pub user_id : ℕ
  pub score : ℕ
  pub risk_level : RiskLevel
  pub risk_reason : ℕ
  pub events_in_window : ℕ
  pub model_version : ℕ

pub classify_step_up : RiskEnv → ℕ → Option StepUpLevel
classify_step_up env score =
    if leb env.hard_threshold score
    then some hard
    else if leb env.soft_threshold score
    then some soft
    else none

-- The session cache entry with a new risk level and, where there is one, a new step-up level.
abbrev pub mark_level : Option StepUpLevel → SessionCacheEntry → SessionCacheEntry
mark_level none entry = entry
mark_level (some level) entry = record entry { step_up_required = true; step_up_level = some level }

abbrev pub updated_entry :
    ℕ → ℕ → RiskLevel → Option StepUpLevel → Option SessionCacheEntry → SessionCacheEntry
updated_entry now user risk level none = mark_level level (fresh_entry user risk now)
updated_entry now user risk level (some entry) =
    mark_level level (record entry { risk_level = risk })

abbrev pub reset_entry : SessionCacheEntry → SessionCacheEntry
reset_entry entry = record entry {
  step_up_required = false;
  step_up_level = none;
  risk_level = low;
}

module _ (B : Backends) (env : RiskEnv) where
  -- A message goes out only while the connection is OPEN.
  unfoldable pub send : Bool → ℕ → WsMessage → M (World B) (Unit {0})
  send is_open session_id msg w =
      if is_open then ok tt (record w { outbox = (session_id, msg) ∷ w.outbox }) else ok tt w

  pub update_session_cache : ℕ → ℕ → ℕ → RiskLevel → Option StepUpLevel → M (World B) (Unit {0})
  update_session_cache now session_id user risk level = do
    existing ← in_session_cache (get B.session_cache now session_id)
    best_effort (
        in_session_cache
          (set_keep B.session_cache now session_id (updated_entry now user risk level existing)))

  -- Nothing is done where a step-up is pending already.
  pub trigger_step_up : ℕ → Bool → ℕ → StepUpLevel → ℕ → M (World B) (Unit {0})
  unfolding send
  trigger_step_up now is_open session_id level score = do
    existing ← in_step_ups (get B.step_ups now session_id)
    elim existing [
      | some _ ↦ return tt
      | none ↦ do
        best_effort (
            in_step_ups (
              set_ex B.step_ups now session_id (record { required_level = level; issued_at = now })
                env.step_up_ttl_s))
        send is_open session_id
            (step_up_event session_id score level (now + env.step_up_ttl_s * 1000))
    ]

  pub trigger_if : ℕ → Bool → IncomingRiskScore → Option StepUpLevel → M (World B) (Unit {0})
  unfolding trigger_step_up
  trigger_if now is_open s none = return tt
  trigger_if now is_open s (some level) = trigger_step_up now is_open s.session_id level s.score

  -- The steps of `process_score` up to the message to the client: the cache, the row and the message.
  pub record_score : ℕ → Bool → IncomingRiskScore → Option StepUpLevel → M (World B) (Unit {0})
  unfolding update_session_cache send
  record_score now is_open s level = do
    update_session_cache now s.session_id s.user_id s.risk_level level
    best_effort (
        in_risk_scores (
          insert B.risk_scores (record {
            session_id = s.session_id;
            user_id = s.user_id;
            risk_score = s.score;
            risk_level = s.risk_level;
            model_version = s.model_version;
            event_window = s.events_in_window;
          })))
    send is_open s.session_id (risk_update s.score s.risk_level s.risk_reason)

  -- `circuit_closed` is whether the circuit breaker is CLOSED, and `is_open` whether the client's
  -- WebSocket is.
  unfoldable pub process_score : ℕ → Bool → Bool → IncomingRiskScore → M (World B) (Unit {0})
  process_score now circuit_closed is_open s = do
    let level = if circuit_closed then classify_step_up env s.score else none
    record_score now is_open s level
    trigger_if now is_open s level

  unfoldable pub resolve_step_up : ℕ → ℕ → M (World B) (Unit {0})
  resolve_step_up now session_id = do
    in_step_ups (del B.step_ups now session_id) >>= λ _. return tt
    cached ← in_session_cache (get B.session_cache now session_id)
    elim cached [
      | none ↦ return tt
      | some entry ↦ in_session_cache (set_keep B.session_cache now session_id (reset_entry entry))
    ]

  -- The gate before the protected routes: a failure of Redis blocks the request too.
  -- `return tt` is the call of `next()`, and a throw that of `next(err)`. Without a session, which means
  -- that the authentication did not run, the request passes.
  pub risk_gate : ℕ → Option ℕ → M (World B) (Unit {0})
  risk_gate now none = return tt
  risk_gate now (some session_id) = do
    pending ← in_step_ups (get B.step_ups now session_id)
    elim pending [ none ↦ return tt | some _ ↦ throw step_up_403 ]
