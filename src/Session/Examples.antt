-- ===== src/Session/Examples.antt =====
-- Sessions over the stores in memory, with tokens in the clear.
use zk_auth.Prelude.{ℕ, ◌≡◌, refl}
use zk_auth.Errors.{app_error, token_revoked}
use zk_auth.Effects.{ok, final, FailsWith, Succeeds, forget}
use zk_auth.Stores.{updated}
use zk_auth.World.{World}
use zk_auth.Fixtures.{memory, empty, env, device, Sealed}
use zk_auth.Session.{
  Draw, AuthTokens, access_claims, access_token_of, refresh_token_of, issue, rotate, revoke_session,
  revoke_all_for_user, verify_access_token,
}
use zk_auth.Session.Access.{verify-revoke}
use zk_auth.Session.Rotation.{rotate_once}

abbrev draw : ℕ → Draw
draw n = record { session_id = n; refresh_jti = n }

-- User 1 logs in at time 0 as session 10.
abbrev logged_in : World memory
logged_in = final (issue memory env 0 (draw 10) 1 device empty)

abbrev tokens : AuthTokens Sealed
tokens = record {
  access_token = access_token_of memory env 0 1 (draw 10);
  refresh_token = refresh_token_of memory env 0 1 (draw 10);
  expires_in = 900;
  session_id = 10;
}

abbrev access_token : Sealed
access_token = access_token_of memory env 0 1 (draw 10)

abbrev refresh_token : Sealed
refresh_token = refresh_token_of memory env 0 1 (draw 10)

-- At time 5000 the refresh token is exchanged for session 11, and at 6000 the session is revoked.
abbrev rotated : World memory
rotated = final (rotate memory env 5000 (draw 11) refresh_token device logged_in)

abbrev revoked : World memory
revoked = final (revoke_session memory env 6000 10 1 logged_in)

abbrev rotated_tokens : AuthTokens Sealed
rotated_tokens = record {
  access_token = access_token_of memory env 5000 1 (draw 11);
  refresh_token = refresh_token_of memory env 5000 1 (draw 11);
  expires_in = 900;
  session_id = 11;
}

sessions : Unit {0}
unfolding issue rotate revoke_session revoke_all_for_user verify_access_token updated
sessions = tt

life_test :
    (forget (verify_access_token memory env 1000 access_token logged_in)
      ≡ ok (access_claims 1 10) tt)
    × FailsWith
        (app_error token_revoked 401)
        (rotate memory env 7000 (draw 12) refresh_token device rotated)
    × FailsWith
        (app_error token_revoked 401)
        (verify_access_token memory env 7000 access_token revoked)
unfolding sessions
life_test = (refl, refl, refl)

verify-revoke_example : ¬ Succeeds (verify_access_token memory env 7000 access_token revoked)
unfolding issue revoke_session updated
verify-revoke_example =
    verify-revoke memory env 6000 10 1 logged_in revoked 7000 access_token (access_claims 1 10) refl
      refl refl refl refl

rotate_once_example : ¬ Succeeds (rotate memory env 7000 (draw 12) refresh_token device rotated)
unfolding issue rotate updated
rotate_once_example =
    rotate_once memory env 5000 (draw 11) refresh_token device logged_in rotated rotated_tokens 7000
      (draw 12) device refl
