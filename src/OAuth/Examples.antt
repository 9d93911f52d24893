-- ===== src/OAuth/Examples.antt =====
-- Authorization codes over the stores in memory.
use zk_auth.Prelude.{ℕ, ◌≡◌, refl, arith, false, Option, none, some, List, [], ◌∷◌}
use zk_auth.Effects.{ok, final, forget, FailsWith, Succeeds}
use zk_auth.Schema.{OAuthCodeRow, s256}
use zk_auth.Stores.{updated}
use zk_auth.World.{World}
use zk_auth.Fixtures.{memory, env, Sealed}
use zk_auth.Fixtures.Accounts.{accounts, client, session_draw}
use zk_auth.Text.{split, join, same_text}
use zk_auth.Session
use zk_auth.Session.{AuthTokens, access_token_of, refresh_token_of, revoke_all_for_user}
use zk_auth.OAuth.{
  AuthorizeRequestParams, ValidatedAuthorizeRequest, TokenExchangeParams, code_response,
  authorization_code, default_scope, invalid_grant_400, validate_authorize_request, read_code,
  mark_code, exchange_code_for_token, is_code_grant, is_code_response,
}
use zk_auth.OAuth.Laws.{Exchanged, exchange-Exchanged}
use zk_auth.OAuth.Once.{Call, exchanges, issues, run_calls, exchange_once}
use zk_auth.OAuth.Reuse.{Admitted, exchange_unauthenticated}
use zk_auth.OAuth.Race.{BothRedeemed, double_redemption}

abbrev sha : ℕ → ℕ
sha secret = secret

abbrev authorize : AuthorizeRequestParams
authorize = record {
  client_id = 4;
  redirect_uri = 3;
  response_type = code_response;
  scope = some default_scope;
  state = none;
  code_challenge = some 66;
  code_challenge_method = some s256;
}

abbrev granted_request : ValidatedAuthorizeRequest
granted_request = record {
  client_db_id = 40;
  client_id = 4;
  redirect_uri = 3;
  scope = default_scope;
  state = none;
  code_challenge = some 66;
  code_challenge_method = some s256;
}

abbrev params : Option ℕ → TokenExchangeParams
params secret = record {
  grant_type = authorization_code;
  code = 30;
  redirect_uri = 3;
  client_id = 4;
  client_secret = secret;
  code_verifier = some 66;
}

-- A code of user 1 for the client 40, which expires at 61000.
abbrev code_row : Option ℕ → OAuthCodeRow
code_row challenge = record {
  client_id = 40;
  user_id = 1;
  redirect_uri = 3;
  scope = default_scope;
  state = none;
  code_challenge = challenge;
  code_challenge_method = none;
  nullifier_hash = 7;
  is_used = false;
  expires_at = 61000;
}

abbrev with_code : Option ℕ → World memory
with_code challenge = record accounts {
  oauth_codes = record { rows = (30, code_row challenge) ∷ []; is_down = false };
}

exchange_steps : Unit {0}
unfolding validate_authorize_request exchange_code_for_token Session.issue revoke_all_for_user
    updated split join same_text is_code_grant is_code_response read_code mark_code
exchange_steps = tt

abbrev exchanged : World memory
exchanged = final (
    exchange_code_for_token memory env sha 2000 (session_draw 10) (params (some 77))
      (with_code (some 66)))

abbrev tokens : AuthTokens Sealed
tokens = record {
  access_token = access_token_of memory env 2000 1 (session_draw 10);
  refresh_token = refresh_token_of memory env 2000 1 (session_draw 10);
  expires_in = 900;
  session_id = 10;
}

exchange_test :
    (forget (
        exchange_code_for_token memory env sha 2000
          (session_draw 10)
          (params (some 77))
          (with_code (some 66)))
      ≡ ok tokens tt)
    × FailsWith invalid_grant_400 (
        exchange_code_for_token memory env sha 70000
          (session_draw 10)
          (params none)
          (with_code none))
unfolding exchange_steps
exchange_test = (refl, refl)

exchange-Exchanged_example :
    Exchanged memory env sha 2000
      (session_draw 10)
      (params (some 77))
      (with_code (some 66))
      exchanged
      30
      10
unfolding exchange_steps
exchange-Exchanged_example =
    exchange-Exchanged memory env sha 2000 (session_draw 10) (params (some 77))
      (with_code (some 66)) exchanged tokens 30 10 refl

-- The first request again, a code that is taken, and a new code.
abbrev later_calls : List Call
later_calls =
    exchanges 2500 (session_draw 12) (params (some 77))
    ∷ issues 2600 30 granted_request 1 7
    ∷ issues 2700 31 granted_request 1 7
    ∷ []

exchange_once_example : ¬ Succeeds (
    exchange_code_for_token memory env sha 3000
      (session_draw 11)
      (params (some 77))
      (run_calls memory env sha later_calls exchanged))
unfolding exchange_steps
exchange_once_example =
    exchange_once memory env sha 2000 3000 (session_draw 10) (session_draw 11) (params (some 77))
      (params (some 77)) later_calls (with_code (some 66)) exchanged tokens refl refl

second_exchange : Admitted memory env sha (params (some 77)) exchanged 40
unfolding exchange_steps
second_exchange = record {
  client = client;
  grant = refl;
  up = refl;
  codes_up = refl;
  found = refl;
  is_active = refl;
  secret = refl;
}

bare_exchange : Admitted memory env sha (params none) (with_code none) 40
unfolding exchange_steps
bare_exchange = record {
  client = client;
  grant = refl;
  up = refl;
  codes_up = refl;
  found = refl;
  is_active = refl;
  secret = refl;
}

-- The client 40 has a secret, and presents none.
exchange_unauthenticated_example :
    Succeeds
      (exchange_code_for_token memory env sha 2000 (session_draw 10) (params none) (with_code none))
unfolding exchange_steps
exchange_unauthenticated_example =
    exchange_unauthenticated memory env sha 2000 (session_draw 10) (params none) (with_code none) 40
      (code_row none) bare_exchange refl refl refl refl (omega arith) refl refl refl refl

abbrev marked_once : World memory
marked_once = final (mark_code memory env sha 30 (with_code (some 66)))

double_redemption_example :
    BothRedeemed memory env sha 2000 2001 (session_draw 10) (session_draw 11) 1 1 30 marked_once
unfolding exchange_steps
double_redemption_example =
    double_redemption memory env sha 2000 2001 40 (session_draw 10) (session_draw 11) (params none)
      (params none) (with_code (some 66)) (with_code (some 66)) (with_code (some 66)) marked_once
      (code_row (some 66)) (code_row (some 66)) refl refl refl refl refl (refl, refl) (refl, refl)
