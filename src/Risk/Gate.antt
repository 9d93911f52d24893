-- ===== src/Risk/Gate.antt =====
-- The gate, the resolution of a step-up, and what a score does to the session cache
-- (backend/src/services/session/risk.service.ts, backend/src/middleware/riskGate.middleware.ts,
-- backend/src/services/session/session.service.ts).
use zk_auth.Prelude.{
  ℕ, ◌+◌, ◌*◌, ◌≤◌, ◌≡◌, ap, refl, ◌∙◌, ◌⊎◌, inl, inr, Bool, true, false, Option, none, some, arith,
  ◌==◌, ltb, if◌then◌else◌, Option-cases,
}
use zk_auth.Errors.{step_up_403}
use zk_auth.Effects.{ok, err, final, forget}
use zk_auth.Stores.{Table, Keyspace, kept}
use zk_auth.Schema.{Backends, StepUpLevel}
use zk_auth.World.{World}
use zk_auth.Tokens.{Jwt, Claims, access_key, access, valid}
use zk_auth.Session.{Env, verify_access_token}
use zk_auth.Session.Laws.{cached}
use zk_auth.Session.Access.{verify-decided}
use zk_auth.Risk.{
  RiskEnv, IncomingRiskScore, classify_step_up, reset_entry, trigger_if, process_score,
  resolve_step_up, risk_gate,
}
use zk_auth.Risk.Laws.{
  pending, asked, process_pending, record_score_lem, process-record, left_cached,
}

module _ (B : Backends) (env : RiskEnv) where
  gate_lem :
      (t id : ℕ) (w : World B)
      → Keyspace.down B.step_ups w.step_ups ≡ false
      → risk_gate B env t (some id) w
        ≡ elim (pending B env w t id) [ none ↦ ok tt w | some _ ↦ err step_up_403 w ]
  unfolding risk_gate
  gate_lem t id w up = ground arith

  -- A score at or above the soft threshold, processed with the circuit CLOSED and no step-up pending,
  -- blocks the protected routes of its session with STEP_UP_REQUIRED until the TTL of the step-up has
  -- passed, and from then on they are open again with nothing resolved, while Redis answers.
  pub gate-process :
      (now : ℕ) (is_open : Bool) (s : IncomingRiskScore) (w : World B) (t : ℕ)
      → (env.soft_threshold ≤ s.score) ⊎ (env.hard_threshold ≤ s.score)
      → pending B env w now s.session_id ≡ none
      → Keyspace.down B.session_cache w.session_cache ≡ false
      → Keyspace.down B.step_ups w.step_ups ≡ false
      → Keyspace.down B.step_ups (final (process_score B env now true is_open s w)).step_ups ≡ false
      → forget
          (risk_gate B env t (some s.session_id) (final (process_score B env now true is_open s w)))
        ≡ (if ltb t (now + env.step_up_ttl_s * 1000) then err step_up_403 tt else ok tt tt)
  unfolding classify_step_up
  gate-process now is_open s w t high fresh up up' up'' = ground (
    arith,
    process_pending B env now true is_open s w t s.session_id,
    gate_lem t s.session_id (final (process_score B env now true is_open s w)),
  )

  -- While the circuit is not CLOSED, no score changes what the gate answers for any session.
  pub gate_circuit_open :
      (now : ℕ) (is_open : Bool) (s : IncomingRiskScore) (w : World B) (t id : ℕ)
      → Keyspace.down B.session_cache w.session_cache ≡ false
      → Keyspace.down B.step_ups w.step_ups ≡ false
      → Keyspace.down B.step_ups (final (process_score B env now false is_open s w)).step_ups
        ≡ false
      → forget (risk_gate B env t (some id) (final (process_score B env now false is_open s w)))
        ≡ forget (risk_gate B env t (some id) w)
  gate_circuit_open now is_open s w t id up up' up'' = ground (
    arith,
    process_pending B env now false is_open s w t id,
    gate_lem t id w,
    gate_lem t id (final (process_score B env now false is_open s w)),
  )

  -- A step-up that is resolved opens the gate for the session, and lowers its cached risk to LOW with
  -- no step-up required; other sessions keep what they have.
  pub resolve_lem :
      (now id : ℕ) (w w' : World B) (t x : ℕ)
      → now ≤ t
      → resolve_step_up B env now id w ≡ ok tt w'
      → (pending B env w' t x ≡ (if id == x then none else pending B env w t x))
        × (cached B w' t x ≡ (
            if id == x
            then elim (cached B w now x) [
              | none ↦ cached B w t x
              | some e ↦ kept (cached B w now x) (cached B w t x) (reset_entry e)
            ]
            else cached B w t x))
  unfolding resolve_step_up
  resolve_lem now id w w' t x le e = elim (Option-cases (cached B w now id)) [
    | inl missing ↦ ground (arith, Keyspace.live-remove B.step_ups id w.step_ups t x)
    | inr (entry, found) ↦ ground (
      arith,
      Keyspace.live-remove B.step_ups id w.step_ups t x,
      Keyspace.live-put_keep B.session_cache now id (reset_entry entry) w.session_cache t x le,
    )
  ]

  trigger_keeps :
      (now : ℕ) (is_open : Bool) (s : IncomingRiskScore) (level : Option StepUpLevel) (w : World B)
      → ((final (trigger_if B env now is_open s level w)).session_cache ≡ w.session_cache)
        × ((final (trigger_if B env now is_open s level w)).session_rows ≡ w.session_rows)
  unfolding trigger_if
  trigger_keeps now is_open s none w = (refl, refl)
  trigger_keeps now is_open s (some level) w = (ground arith, ground arith)

  -- What a processed score does to the cache entry of a session `x`, and that it leaves the rows.
  process_cached :
      (now : ℕ) (closed is_open : Bool) (s : IncomingRiskScore) (w : World B) (t x : ℕ)
      → now ≤ t
      → Keyspace.down B.session_cache w.session_cache ≡ false
      → (cached B (final (process_score B env now closed is_open s w)) t x ≡ (
          if s.session_id == x
          then left_cached B env now s (asked B env closed s) (cached B w now x) (cached B w t x)
          else cached B w t x))
        × ((final (process_score B env now closed is_open s w)).session_rows ≡ w.session_rows)
  process_cached now closed is_open s w t x le up =
      let (w', run, _, rows, entry) =
        record_score_lem B env now is_open s (asked B env closed s) w t x le up in
      let (cache', rows') = trigger_keeps now is_open s (asked B env closed s) w' in
      rw (process-record B env now closed is_open s w w' run) (
        ap (λ (q : Keyspace.State B.session_cache). Keyspace.live B.session_cache q t x) cache'
            ∙ entry,
        rows' ∙ rows,
      )

  -- A risk score that arrives after its session was revoked brings the session back: with the session
  -- gone from the cache, and whatever its row says, every access token of the session that is still
  -- live by its signature is accepted from then on, with the risk level of the score.
  pub verify-process :
      (senv : Env) (now : ℕ) (closed is_open : Bool) (s : IncomingRiskScore) (w : World B) (t : ℕ)
      (raw : Jwt.Token senv.jwt) (c : Claims)
      → cached B w now s.session_id ≡ none
      → now ≤ t
      → Jwt.verify senv.jwt access_key t raw ≡ valid c
      → c.type ≡ access
      → c.sid ≡ s.session_id
      → Keyspace.down B.session_cache w.session_cache ≡ false
      → Keyspace.down B.session_cache
          (final (process_score B env now closed is_open s w)).session_cache
        ≡ false
      → Table.down B.session_rows (final (process_score B env now closed is_open s w)).session_rows
        ≡ false
      → forget
          (verify_access_token B senv t raw (final (process_score B env now closed is_open s w)))
        ≡ ok (record c { risk = s.risk_level }) tt
  verify-process senv now closed is_open s w t raw c gone le v a sid up up' pg =
      let after = final (process_score B env now closed is_open s w) in
      let (entry, _) = process_cached now closed is_open s w t c.sid le up in
      ground (
        arith,
        entry,
        verify-decided B senv t raw c after v a up' pg,
        ap (λ (i : ℕ). cached B w now i) sid,
      )
