-- ===== src/Risk/Examples.antt =====
-- Risk scores over the stores in memory.
use zk_auth.Prelude.{some, ◌≡◌, refl, inl, true, arith, ltb, if◌then◌else◌}
use zk_auth.Errors.{step_up_403}
use zk_auth.Effects.{ok, err, final, FailsWith, Succeeds, forget}
use zk_auth.Schema.{high}
use zk_auth.World.{World}
use zk_auth.Fixtures.{memory, empty, env, risk_env, seal}
use zk_auth.Tokens.{access_key}
use zk_auth.Session.{verify_access_token, access_claims}
use zk_auth.Risk.{
  IncomingRiskScore, classify_step_up, record_score, trigger_if, process_score, resolve_step_up,
  risk_gate,
}
use zk_auth.Risk.Gate.{gate-process, verify-process}

abbrev alarm : IncomingRiskScore
alarm = record {
  session_id = 10;
  user_id = 1;
  score = 80;
  risk_level = high;
  risk_reason = 2;
  events_in_window = 30;
  model_version = 1;
}

abbrev alarmed : World memory
alarmed = final (process_score memory risk_env 1000 true true alarm empty)

abbrev calmed : World memory
calmed = final (resolve_step_up memory risk_env 2000 10 alarmed)

risks : Unit {0}
unfolding process_score record_score trigger_if classify_step_up resolve_step_up risk_gate
risks = tt

gate_test :
    FailsWith step_up_403 (risk_gate memory risk_env 2000 (some 10) alarmed)
    × Succeeds (risk_gate memory risk_env 2001 (some 10) calmed)
unfolding risks
gate_test = (refl, tt)

gate-process_example :
    forget (risk_gate memory risk_env 2000 (some 10) alarmed)
    ≡ (if ltb 2000 301000 then err step_up_403 tt else ok tt tt)
unfolding process_score record_score trigger_if classify_step_up
gate-process_example =
    gate-process memory risk_env 1000 true alarm empty 2000 (inl (omega arith)) refl refl refl refl

-- No session 10 is in the database, and its access token is accepted after the score.
verify-process_example :
    forget
      (verify_access_token memory env 2000 (seal access_key 900 0 (access_claims 1 10)) alarmed)
    ≡ ok (record (access_claims 1 10) { risk = high }) tt
unfolding process_score record_score trigger_if classify_step_up
verify-process_example =
    verify-process memory risk_env env 1000 true true alarm empty 2000
      (seal access_key 900 0 (access_claims 1 10)) (access_claims 1 10) refl (omega arith) refl refl
      refl refl refl refl
