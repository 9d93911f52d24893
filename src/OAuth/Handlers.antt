-- ===== src/OAuth/Handlers.antt =====
-- The handlers of backend/src/controllers/oauth.controller.ts, with the parameters that its schemas have
-- parsed.
use zk_auth.Prelude.{ℕ, Option}
use zk_auth.Effects.{M, ◌>>=◌, return}
use zk_auth.Schema.{Backends, ChallengeMethod}
use zk_auth.Text.{Text}
use zk_auth.Tokens.{Jwt}
use zk_auth.World.{World}
use zk_auth.Session.{Env, Draw, AuthTokens}
use zk_auth.OAuth.{
  AuthorizeRequestParams, ValidatedAuthorizeRequest, TokenExchangeParams,
  validate_authorize_request, exchange_code_for_token,
}

-- The `oauth_context` of the answer. It has the database id of the client and not its client id, which
-- the body of a login wants beside it.
pub record OfferedContext : Type 0 where
  pub client_db_id : ℕ
  pub redirect_uri : ℕ
  pub scope : Text
  pub state : Option ℕ
  pub code_challenge : Option ℕ
  pub code_challenge_method : Option ChallengeMethod

pub record AuthorizeAnswer : Type 0 where
  pub client_id : ℕ
  pub oauth_context : OfferedContext

abbrev pub context_of : ValidatedAuthorizeRequest → OfferedContext
context_of v = record {
  client_db_id = v.client_db_id;
  redirect_uri = v.redirect_uri;
  scope = v.scope;
  state = v.state;
  code_challenge = v.code_challenge;
  code_challenge_method = v.code_challenge_method;
}

module _ (B : Backends) (env : Env) (sha256 : ℕ → ℕ) where
  pub get_authorize : AuthorizeRequestParams → M (World B) AuthorizeAnswer
  get_authorize p = do
    v ← validate_authorize_request B env sha256 p
    return (record { client_id = v.client_id; oauth_context = context_of v })

  pub post_token : ℕ → Draw → TokenExchangeParams → M (World B) (AuthTokens (Jwt.Token env.jwt))
  post_token now d p = exchange_code_for_token B env sha256 now d p
