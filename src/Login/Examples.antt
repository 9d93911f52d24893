-- ===== src/Login/Examples.antt =====
-- Logins over the stores in memory.
use zk_auth.Prelude.{◌≡◌, refl, inl, none, some}
use zk_auth.Effects.{ok, final, forget, FailsWith, Succeeds}
use zk_auth.Stores.{updated}
use zk_auth.World.{World}
use zk_auth.Fixtures.{memory, env, Sealed}
use zk_auth.Text.{all_digits, decimal_from}
use zk_auth.Errors.{replay}
use zk_auth.Fixtures.Accounts.{
  login_env, challenged, request, seven, eight, drawn, context, session_draw,
}
use zk_auth.Challenge
use zk_auth.Challenge.{fetch, consume}
use zk_auth.Nullifier.{exists, register}
use zk_auth.Session
use zk_auth.Session.{AuthTokens, access_token_of, refresh_token_of}
use zk_auth.Zkp.{verify}
use zk_auth.OAuth.{validate_authorize_request, issue_authorization_code}
use zk_auth.Login.{session_tokens, post_verify}
use zk_auth.Login.Laws.{LoginOutcome, post_verify-LoginOutcome}
use zk_auth.Login.Once.{post_verify_once}

logins : Unit {0}
unfolding Challenge.issue fetch consume exists register verify Session.issue post_verify updated
    all_digits decimal_from
logins = tt

abbrev tokens : AuthTokens Sealed
tokens = record {
  access_token = access_token_of memory env 1000 1 (session_draw 10);
  refresh_token = refresh_token_of memory env 1000 1 (session_draw 10);
  expires_in = 900;
  session_id = 10;
}

-- User 1 logs in at time 1000 as session 10.
abbrev logged_in : World memory
logged_in = final (post_verify memory login_env 1000 (drawn 10 30) (request seven none) challenged)

login_test :
    forget (post_verify memory login_env 1000 (drawn 10 30) (request seven none) challenged)
    ≡ ok (session_tokens tokens) tt
unfolding logins
login_test = refl

replay_test :
    FailsWith replay
      (post_verify memory login_env 2000 (drawn 11 31) (request eight none) logged_in)
unfolding logins
replay_test = refl

code_test :
    Succeeds
      (post_verify memory login_env 1000 (drawn 10 30) (request seven (some context)) challenged)
unfolding logins validate_authorize_request issue_authorization_code
code_test = tt

post_verify-LoginOutcome_example :
    LoginOutcome memory login_env 1000
      (drawn 10 30)
      (request seven none)
      challenged
      10
      (post_verify memory login_env 1000 (drawn 10 30) (request seven none) challenged)
post_verify-LoginOutcome_example =
    post_verify-LoginOutcome memory login_env 1000 (drawn 10 30) (request seven none) challenged 10
      refl

post_verify_once_example :
    ¬ Succeeds (post_verify memory login_env 2000 (drawn 11 31) (request eight none) logged_in)
unfolding logins
post_verify_once_example =
    post_verify_once memory login_env 1000 2000 (drawn 10 30) (drawn 11 31) (request seven none)
      (request eight none) challenged logged_in (session_tokens tokens) refl refl (inl refl)
