-- ===== src/OAuth.antt =====
-- The authorization server of backend/src/services/oauth/oauth.service.ts; its controller is in
-- OAuth/Handlers. The code that `issue_authorization_code` draws and the
-- identifiers of the session are arguments, SHA-256 is a parameter. Where the code tests whether a
-- text is there, an empty text counts as none.
pub mod Scopes
pub mod Laws
pub mod Handlers
pub mod Issue
pub mod Race
pub mod Once
pub mod Reuse
mod Examples
use zk_auth.Prelude.{
  ℕ, ◌+◌, ◌*◌, ◌==◌, ltb, not, Bool, true, false, ◌&&◌, ◌||◌, Option, none, some, List, [], ◌∷◌,
  select, if◌then◌else◌,
}
use zk_auth.Errors.{
  Error, app_error, unsupported_grant_type, invalid_client, invalid_request, invalid_scope,
  invalid_grant,
}
use zk_auth.Effects.{M, ◌>>=◌, ◌>>◌, return, throw, best_effort}
use zk_auth.Text.{Text, same_text, split, join}
use zk_auth.Text.Laws.{parts_of}
use zk_auth.Stores.{mem, find_first, find_unique, create, update}
use zk_auth.Schema.{
  Backends, OAuthClientRow, OAuthCodeRow, ChallengeMethod, s256, other_method, Device,
}
use zk_auth.World.{World, in_oauth_clients, in_oauth_codes}
use zk_auth.Tokens.{Jwt}
use zk_auth.Session.{Env, Draw, AuthTokens, issue, revoke_all_for_user}

pub data ResponseType : Type 0 where
  code_response other_response : ResponseType

pub data GrantType : Type 0 where
  authorization_code other_grant : GrantType

pub record AuthorizeRequestParams : Type 0 where
  pub client_id : ℕ
  pub redirect_uri : ℕ
  pub response_type : ResponseType
  pub scope : Option Text
  pub state : Option ℕ
  pub code_challenge : Option ℕ
  pub code_challenge_method : Option ChallengeMethod

pub record ValidatedAuthorizeRequest : Type 0 where
  pub client_db_id : ℕ
  pub client_id : ℕ
  pub redirect_uri : ℕ
  pub scope : Text
  pub state : Option ℕ
  pub code_challenge : Option ℕ
  pub code_challenge_method : Option ChallengeMethod

pub record TokenExchangeParams : Type 0 where
  pub grant_type : GrantType
  pub code : ℕ
  pub redirect_uri : ℕ
  pub client_id : ℕ
  pub client_secret : Option ℕ
  pub code_verifier : Option ℕ

pub record IssuedCode : Type 0 where
  pub code : ℕ
  pub state : Option ℕ
  pub redirect_uri : ℕ

abbrev pub auth_code_ttl_s : ℕ
auth_code_ttl_s = 60

-- `openid profile`
abbrev pub default_scope : Text
default_scope =
    111 ∷ 112 ∷ 101 ∷ 110 ∷ 105 ∷ 100 ∷ 32 ∷ 112 ∷ 114 ∷ 111 ∷ 102 ∷ 105 ∷ 108 ∷ 101 ∷ []

abbrev pub or_default : Option Text → Text
or_default none = default_scope
or_default (some scope) = scope

pub is_code_response : ResponseType → Bool
is_code_response code_response = true
is_code_response other_response = false

pub is_code_grant : GrantType → Bool
is_code_grant authorization_code = true
is_code_grant other_grant = false

abbrev pub is_part : Text → Bool
is_part [] = false
is_part (c ∷ cs) = true

pub has_text : List Text → Text → Bool
unfolding same_text
has_text [] t = false
has_text (s ∷ rest) t = same_text s t || has_text rest t

-- `scope.split(' ').filter(Boolean)`, and of these the scopes of the client.
pub requested_scopes : Option Text → List Text
unfolding split
requested_scopes scope = select is_part (parts_of (split (or_default scope)))

pub granted_scopes : List Text → Option Text → List Text
unfolding requested_scopes has_text
granted_scopes allowed scope = select (has_text allowed) (requested_scopes scope)

-- A code challenge is supported only with the method S256.
pub is_supported : Option ℕ → Option ChallengeMethod → Bool
is_supported none method = true
is_supported (some c) (some s256) = true
is_supported (some c) _ = false

abbrev pub invalid_grant_400 : Error
invalid_grant_400 = app_error invalid_grant 400

-- The device that `issue` is called without.
abbrev pub no_device : Device
no_device = record { fingerprint = none; ip_address = none; label = none; user_agent = none }

abbrev pub mark_used : OAuthCodeRow → OAuthCodeRow
mark_used row = record row { is_used = true }

module _ (B : Backends) (env : Env) (sha256 : ℕ → ℕ) where
  abbrev pub with_client_id : ℕ → ℕ → OAuthClientRow → Bool
  with_client_id id _ row = row.client_id == id

  -- The client with this client id, where it is active.
  abbrev pub active_client : Option (ℕ × OAuthClientRow) → Option (ℕ × OAuthClientRow)
  active_client none = none
  active_client (some (id, row)) = if row.is_active then some (id, row) else none

  grant_scopes :
      AuthorizeRequestParams
      → ℕ
      → OAuthClientRow
      → List Text
      → M (World B) ValidatedAuthorizeRequest
  unfolding is_supported join
  grant_scopes p id client [] = throw (app_error invalid_scope 400)
  grant_scopes p id client (scope ∷ scopes) =
      if is_supported p.code_challenge p.code_challenge_method
      then return (record {
        client_db_id = id;
        client_id = client.client_id;
        redirect_uri = p.redirect_uri;
        scope = join (scope ∷ scopes);
        state = p.state;
        code_challenge = p.code_challenge;
        code_challenge_method = p.code_challenge_method;
      })
      else throw (app_error invalid_request 400)

  validate_client :
      AuthorizeRequestParams → Option (ℕ × OAuthClientRow) → M (World B) ValidatedAuthorizeRequest
  unfolding grant_scopes granted_scopes
  validate_client p none = throw (app_error invalid_client 400)
  validate_client p (some (id, client)) =
      if mem p.redirect_uri client.redirect_uris
      then grant_scopes p id client (granted_scopes client.scopes p.scope)
      else throw (app_error invalid_request 400)

  unfoldable pub validate_authorize_request :
      AuthorizeRequestParams → M (World B) ValidatedAuthorizeRequest
  unfolding validate_client is_code_response
  validate_authorize_request p =
      if is_code_response p.response_type
      then (do
        client ← in_oauth_clients (find_first B.oauth_clients (with_client_id p.client_id))
        validate_client p (active_client client))
      else throw (app_error unsupported_grant_type 400)

  abbrev pub code_row : ℕ → ValidatedAuthorizeRequest → ℕ → ℕ → OAuthCodeRow
  code_row now v user nullifier = record {
    client_id = v.client_db_id;
    user_id = user;
    redirect_uri = v.redirect_uri;
    scope = v.scope;
    state = v.state;
    code_challenge = v.code_challenge;
    code_challenge_method = v.code_challenge_method;
    nullifier_hash = nullifier;
    is_used = false;
    expires_at = now + auth_code_ttl_s * 1000;
  }

  unfoldable pub issue_authorization_code :
      ℕ → ℕ → ValidatedAuthorizeRequest → ℕ → ℕ → M (World B) IssuedCode
  issue_authorization_code now code v user nullifier = do
    in_oauth_codes (create B.oauth_codes code (code_row now v user nullifier))
    return (record { code = code; state = v.state; redirect_uri = v.redirect_uri })

  -- A secret is compared only where the request has one.
  abbrev pub secret_matches : Option ℕ → Option ℕ → Bool
  secret_matches none stored = true
  secret_matches (some secret) none = false
  secret_matches (some secret) (some hash) = sha256 secret == hash

  abbrev pub pkce_matches : Option ℕ → Option ℕ → Bool
  pkce_matches none verifier = true
  pkce_matches (some challenge) none = false
  pkce_matches (some challenge) (some verifier) = sha256 verifier == challenge

  -- The tests of an unused code, all of which throw INVALID_GRANT.
  abbrev pub is_redeemable : ℕ → ℕ → TokenExchangeParams → OAuthCodeRow → Bool
  is_redeemable now client p row =
      not (ltb row.expires_at now)
      && (row.client_id == client
          && (row.redirect_uri == p.redirect_uri
              && pkce_matches row.code_challenge p.code_verifier))

  -- A reused code revokes the sessions of its user, outside of the transaction.
  pub refuse_reused : ℕ → M (World B) OAuthCodeRow
  refuse_reused user = do
    best_effort (revoke_all_for_user B env user >>= λ _. return tt)
    throw invalid_grant_400

  -- The reading half of the transaction.
  pub check_code : ℕ → ℕ → TokenExchangeParams → Option OAuthCodeRow → M (World B) OAuthCodeRow
  unfolding refuse_reused
  check_code now client p none = throw invalid_grant_400
  check_code now client p (some row) =
      if row.is_used
      then refuse_reused row.user_id
      else if is_redeemable now client p row
      then return row
      else throw invalid_grant_400

  pub read_code : ℕ → ℕ → TokenExchangeParams → M (World B) OAuthCodeRow
  unfolding check_code
  read_code now client p = do
    row ← in_oauth_codes (find_unique B.oauth_codes p.code)
    check_code now client p row

  -- Its writing half, which is its last command: nothing has to be rolled back.
  pub mark_code : ℕ → M (World B) (Unit {0})
  mark_code code = in_oauth_codes (update B.oauth_codes code mark_used)

  pub redeem : ℕ → Draw → ℕ → TokenExchangeParams → M (World B) (AuthTokens (Jwt.Token env.jwt))
  unfolding read_code mark_code
  redeem now d client p = do
    row ← read_code now client p
    mark_code p.code
    issue B env now d row.user_id no_device

  pub exchange_client :
      ℕ
      → Draw
      → TokenExchangeParams
      → Option (ℕ × OAuthClientRow)
      → M (World B) (AuthTokens (Jwt.Token env.jwt))
  unfolding redeem
  exchange_client now d p none = throw (app_error invalid_client 401)
  exchange_client now d p (some (id, client)) =
      if secret_matches p.client_secret client.client_secret_hash
      then redeem now d id p
      else throw (app_error invalid_client 401)

  unfoldable pub exchange_code_for_token :
      ℕ → Draw → TokenExchangeParams → M (World B) (AuthTokens (Jwt.Token env.jwt))
  unfolding exchange_client is_code_grant
  exchange_code_for_token now d p =
      if is_code_grant p.grant_type
      then (do
        client ← in_oauth_clients (find_first B.oauth_clients (with_client_id p.client_id))
        exchange_client now d p (active_client client))
      else throw (app_error unsupported_grant_type 400)
