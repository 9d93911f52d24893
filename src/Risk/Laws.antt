-- ===== src/Risk/Laws.antt =====
-- Step-ups from the score that asks for one to the gate that demands it
-- (backend/src/services/session/risk.service.ts, backend/src/middleware/riskGate.middleware.ts).
use zk_auth.Prelude.{
  ℕ, ◌+◌, ◌*◌, ◌≤◌, ◌<◌, ◌≡◌, ap, ◌↔◌, Bool, false, Option, none, some, arith, ◌==◌, ltb,
  if◌then◌else◌,
}
use zk_auth.Effects.{ok, final, Succeeds}
use zk_auth.Stores.{Keyspace, kept}
use zk_auth.Schema.{Backends, SessionCacheEntry, StepUpEntry, StepUpLevel, soft, hard}
use zk_auth.World.{World}
use zk_auth.Session.Laws.{cached}
use zk_auth.Risk.{
  RiskEnv, IncomingRiskScore, classify_step_up, updated_entry, trigger_if, record_score,
  record_score, process_score,
}

-- A score asks for a HARD step-up exactly from the hard threshold on, and for a SOFT one exactly
-- between the soft threshold and that.
pub classify_lem :
    (env : RiskEnv) (score : ℕ)
    → ((classify_step_up env score ≡ some hard) ↔ (env.hard_threshold ≤ score))
      × ((classify_step_up env score ≡ some soft)
          ↔ ((env.soft_threshold ≤ score) × (score < env.hard_threshold)))
unfolding classify_step_up
classify_lem env score = ground arith

module _ (B : Backends) (env : RiskEnv) where
  abbrev pub pending : World B → ℕ → ℕ → Option StepUpEntry
  pending w t id = Keyspace.live B.step_ups w.step_ups t id

  -- The step-up that a score asks for.
  abbrev pub asked : Bool → IncomingRiskScore → Option StepUpLevel
  asked closed s = if closed then classify_step_up env s.score else none

  abbrev pub new_entry : ℕ → StepUpLevel → StepUpEntry
  new_entry now level = record { required_level = level; issued_at = now }

  -- What a score leaves pending for its session at a time `t`.
  abbrev pub left_pending :
      ℕ → Option StepUpLevel → Option StepUpEntry → Option StepUpEntry → ℕ → Option StepUpEntry
  left_pending now none before then_ t = then_
  left_pending now (some level) (some e) then_ t = then_
  left_pending now (some level) none then_ t =
      if ltb t (now + env.step_up_ttl_s * 1000) then some (new_entry now level) else none

  trigger_pending :
      (now : ℕ) (is_open : Bool) (s : IncomingRiskScore) (level : Option StepUpLevel) (w : World B)
      (t x : ℕ)
      → Keyspace.down B.step_ups w.step_ups ≡ false
      → Succeeds (trigger_if B env now is_open s level w)
        × (pending (final (trigger_if B env now is_open s level w)) t x ≡ (
            if s.session_id == x
            then left_pending now level (pending w now x) (pending w t x) t
            else pending w t x))
  unfolding trigger_if
  trigger_pending now is_open s none w t x up = ground arith
  trigger_pending now is_open s (some level) w t x up = ground (
    arith,
    Keyspace.live-put_ex B.step_ups now s.session_id (new_entry now level) env.step_up_ttl_s
        w.step_ups t x,
  )

  -- The session cache entry that a score leaves.
  abbrev pub left_cached :
      ℕ
      → IncomingRiskScore
      → Option StepUpLevel
      → Option SessionCacheEntry
      → Option SessionCacheEntry
      → Option SessionCacheEntry
  left_cached now s level before later =
      kept before later (updated_entry now s.user_id s.risk_level level before)

  pub record_score_lem :
      (now : ℕ) (is_open : Bool) (s : IncomingRiskScore) (level : Option StepUpLevel) (w : World B)
      (t x : ℕ)
      → now ≤ t
      → Keyspace.down B.session_cache w.session_cache ≡ false
      → (w' : World B) × (record_score B env now is_open s level w ≡ ok tt w')
        × (w'.step_ups ≡ w.step_ups)
        × (w'.session_rows ≡ w.session_rows)
        × (cached B w' t x ≡ (
            if s.session_id == x
            then left_cached now s level (cached B w now x) (cached B w t x)
            else cached B w t x))
  unfolding record_score
  record_score_lem now is_open s level w t x le up =
      let before = cached B w now s.session_id in
      let law =
        Keyspace.live-put_keep B.session_cache now s.session_id
          (updated_entry now s.user_id s.risk_level level before) w.session_cache t x le in
      (
        final (record_score B env now is_open s level w),
        ground arith,
        ground arith,
        ground arith,
        ground (arith, law),
      )

  pub process-record :
      (now : ℕ) (closed is_open : Bool) (s : IncomingRiskScore) (w w' : World B)
      → record_score B env now is_open s (asked closed s) w ≡ ok tt w'
      → process_score B env now closed is_open s w
        ≡ trigger_if B env now is_open s (asked closed s) w'
  unfolding process_score
  process-record now closed is_open s w w' e = ground arith

  -- After a score is processed with Redis answering, its session has the step-up pending that it had,
  -- and where it had none the one that the score asks for, for the TTL; while the circuit is not CLOSED
  -- a score asks for none. No other session is affected.
  pub process_pending :
      (now : ℕ) (closed is_open : Bool) (s : IncomingRiskScore) (w : World B) (t x : ℕ)
      → Keyspace.down B.session_cache w.session_cache ≡ false
      → Keyspace.down B.step_ups w.step_ups ≡ false
      → Succeeds (process_score B env now closed is_open s w)
        × (pending (final (process_score B env now closed is_open s w)) t x ≡ (
            if s.session_id == x
            then left_pending now (asked closed s) (pending w now x) (pending w t x) t
            else pending w t x))
  process_pending now closed is_open s w t x up up' =
      let (w', run, same, _, _) =
        record_score_lem now is_open s (asked closed s) w now x (omega arith) up in
      rw (process-record now closed is_open s w w' run) (
        ground (
          arith,
          trigger_pending now is_open s (asked closed s) w' t x,
          ap (λ (q : Keyspace.State B.step_ups). Keyspace.down B.step_ups q) same,
          ap (λ (q : Keyspace.State B.step_ups). Keyspace.live B.step_ups q t x) same,
          ap (λ (q : Keyspace.State B.step_ups). Keyspace.live B.step_ups q now x) same,
        ))
