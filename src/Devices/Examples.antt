-- ===== src/Devices/Examples.antt =====
-- Step-ups and the management of devices over the stores in memory.
use zk_auth.Prelude.{ℕ, refl, true, none, some}
use zk_auth.Errors.{forbidden_403, not_found_404}
use zk_auth.Effects.{final, FailsWith, Succeeds}
use zk_auth.Schema.{Backends, low, soft}
use zk_auth.Stores.{Keyspace, updated}
use zk_auth.World.{World}
use zk_auth.Fixtures.{memory, env, device, risk_env}
use zk_auth.Fixtures.Accounts.{login_env, accounts, body, seven, session_draw}
use zk_auth.Text.{all_digits, decimal_from}
use zk_auth.Login.{check_proof}
use zk_auth.Challenge
use zk_auth.Challenge.{fetch, consume}
use zk_auth.Nullifier.{exists, register}
use zk_auth.Zkp.{verify}
use zk_auth.Risk.{resolve_step_up}
use zk_auth.Session
use zk_auth.Session.{access_token_of, access_claims, verify_access_token}
use zk_auth.AuthGuard.{AuthenticatedSession}
use zk_auth.Devices.{post_revoke_session, post_step_up_resolve}
use zk_auth.Devices.StepUp.{StepUpResolved, resolve-StepUpResolved}

abbrev current : ℕ → AuthenticatedSession
current user = record { user_id = user; session_id = 10; risk_level = low }

-- User 1 is logged in as sessions 10 and 11, session 10 is asked for a step-up, and the
-- challenge 20 with the nonce 9 is issued for it.
abbrev two_sessions : World memory
two_sessions = final (
    Session.issue memory env 0 (session_draw 11) 1 device
      (final (Session.issue memory env 0 (session_draw 10) 1 device accounts)))

abbrev asked : World memory
asked = final (
    Challenge.issue memory 120 1000 20 9 (some 1) (record two_sessions {
      step_ups =
          Keyspace.put_ex (Backends.step_ups memory) 1000 10
            (record { required_level = soft; issued_at = 1000 }) 300 two_sessions.step_ups;
    }))

step_ups : Unit {0}
unfolding Challenge.issue fetch consume exists register verify Session.issue resolve_step_up
    post_step_up_resolve post_revoke_session verify_access_token updated all_digits decimal_from
    check_proof
step_ups = tt

abbrev resolved : World memory
resolved =
    final
      (post_step_up_resolve memory login_env risk_env 2000 true (current 1) (body seven none) asked)

resolve_test :
    Succeeds
      (post_step_up_resolve memory login_env risk_env 2000 true (current 1) (body seven none) asked)
    × FailsWith forbidden_403 (
        post_step_up_resolve memory login_env risk_env 3000 true
          (current 1)
          (body seven none)
          resolved)
    × FailsWith not_found_404
        (post_revoke_session memory login_env risk_env 2000 true (current 2) 11 two_sessions)
unfolding step_ups
resolve_test = (tt, refl, refl)

resolve-StepUpResolved_example :
    StepUpResolved memory login_env risk_env 2000 (current 1) (body seven none) asked resolved 3000
unfolding step_ups
resolve-StepUpResolved_example =
    resolve-StepUpResolved memory login_env risk_env 2000 true (current 1) (body seven none) asked
      resolved 3000 refl refl

abbrev one_revoked : World memory
one_revoked =
    final (post_revoke_session memory login_env risk_env 2000 true (current 1) 11 two_sessions)
