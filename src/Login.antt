-- ===== src/Login.antt =====
-- The handlers of backend/src/controllers/auth.controller.ts that authenticate a user. A handler takes
-- the body that its Zod schema has parsed, all its times are one, and the identifiers that the
-- services draw are arguments. An error is what the handler passes to `next`. The recovery of an
-- account and its registration are in Recovery and in Recovery/Account.
pub mod Frames
pub mod Laws
pub mod Once
mod Examples
use zk_auth.Prelude.{
  ℕ, Bool, true, false, ◌&&◌, Option, none, some, List, [], ◌∷◌, ◌==◌, if◌then◌else◌, is_some,
}
use zk_auth.Errors.{Error, app_error, invalid_token, replay, unauthorized_401}
use zk_auth.Effects.{M, ◌>>=◌, ◌>>◌, return, throw}
use zk_auth.Text.{Text}
use zk_auth.Stores.{find_unique, find_first, update}
use zk_auth.Schema.{
  Backends, ChallengePayload, ChallengeMethod, Device, UserRow, UserStatus, active, suspended,
  pending_verify,
}
use zk_auth.World.{World, in_user_rows}
use zk_auth.Tokens.{
  Jwt, Claims, TokenType, access, refresh, recovery, access_key, Verdict, valid,
  token_expired_error, other_failure,
}
use zk_auth.Challenge
use zk_auth.Challenge.{ChallengeRecord, fetch, consume}
use zk_auth.Nullifier.{Registration, exists, register}
use zk_auth.Zkp.{Proof, VerificationInput, VerificationResult, ZkpEnv, by_commitment, verify}
use zk_auth.Session
use zk_auth.Session.{Env, Draw, AuthTokens, rotate, revoke_session, revoke_all_for_user}
use zk_auth.OAuth.{
  AuthorizeRequestParams, ValidatedAuthorizeRequest, IssuedCode, code_response,
  validate_authorize_request, issue_authorization_code,
}

-- `oauth_context`, without the client's database id, which the handler does not read.
pub record OAuthContext : Type 0 where
  pub client_id : ℕ
  pub redirect_uri : ℕ
  pub scope : Text
  pub state : Option ℕ
  pub code_challenge : Option ℕ
  pub code_challenge_method : Option ChallengeMethod

pub record VerifyBody : Type 0 where
  pub challenge_id : ℕ
  pub proof : Proof
  pub nullifier : Text
  pub commitment : Text
  pub nonce_signal : Text
  pub oauth_context : Option OAuthContext

-- A request with its headers; an empty recovery token counts as none.
pub record VerifyRequest (Token : Type 0) : Type 0 where
  pub body : VerifyBody
  pub recovery_token : Option Token
  pub device : Device

pub data VerifyAnswer (Token : Type 0) : Type 0 where
  session_tokens : AuthTokens Token → VerifyAnswer Token
  oauth_code : IssuedCode → VerifyAnswer Token

-- The services' settings and packages, and what the handlers draw at random.
pub record LoginEnv : Type 1 where
  pub session : Env
  pub zkp : ZkpEnv
  pub sha256 : ℕ → ℕ
  pub challenge_ttl_s : ℕ
  pub lock_ttl_s : ℕ

pub record Drawn : Type 0 where
  pub session : Draw
  pub code : ℕ

abbrev pub is_recovery : TokenType → Bool
is_recovery recovery = true
is_recovery _ = false

-- Whether the token is the recovery token of this user.
abbrev pub recovers : ℕ → Verdict → Bool
recovers user (valid c) = is_recovery c.type && c.sub == user
recovers user token_expired_error = false
recovers user other_failure = false

abbrev pub is_active_status : UserStatus → Bool
is_active_status active = true
is_active_status suspended = false
is_active_status pending_verify = false

abbrev pub activated : UserRow → UserRow
activated row = record row { status = active }

abbrev pub signals_of : VerifyBody → List Text
signals_of body = body.nullifier ∷ body.commitment ∷ body.nonce_signal ∷ []

abbrev pub params_of : OAuthContext → AuthorizeRequestParams
params_of c = record {
  client_id = c.client_id;
  redirect_uri = c.redirect_uri;
  response_type = code_response;
  scope = some c.scope;
  state = c.state;
  code_challenge = c.code_challenge;
  code_challenge_method = c.code_challenge_method;
}

module _ (B : Backends) (env : LoginEnv) where
  abbrev pub Token : Type 0
  Token = Jwt.Token (Env.jwt env.session)

  abbrev pub input_of : VerifyBody → ChallengePayload → VerificationInput
  input_of body payload = record {
    proof = body.proof;
    public_signals = signals_of body;
    challenge_nonce = payload.nonce;
  }

  abbrev pub registration : VerifyBody → VerificationResult → Registration
  registration body r = record {
    nullifier_hash = r.nullifier_hash;
    user_id = r.user_id;
    challenge_id = body.challenge_id;
  }

  -- A pending account wants the recovery token.
  pub activate_with : ℕ → ℕ → Option Token → M (World B) (Unit {0})
  activate_with now user none = throw unauthorized_401
  activate_with now user (some token) =
      if recovers user (Jwt.verify (Env.jwt env.session) access_key now token)
      then in_user_rows (update B.user_rows user activated)
      else throw (app_error invalid_token 401)

  pub activate_found : ℕ → ℕ → Option Token → Option UserRow → M (World B) (Unit {0})
  unfolding activate_with
  activate_found now user token none = return tt
  activate_found now user token (some row) = elim row.status [
    | pending_verify ↦ activate_with now user token
    | _ ↦ return tt
  ]

  pub activate_pending : ℕ → ℕ → Option Token → M (World B) (Unit {0})
  unfolding activate_found
  activate_pending now user token = do
    row ← in_user_rows (find_unique B.user_rows user)
    activate_found now user token row

  -- The OAuth branch trusts only the client that the context names.
  pub answer_code : ℕ → ℕ → VerificationResult → OAuthContext → M (World B) (VerifyAnswer Token)
  answer_code now code r context = do
    validated ← validate_authorize_request B env.session env.sha256 (params_of context)
    issued ←
        issue_authorization_code B env.session env.sha256 now code validated r.user_id
          r.nullifier_hash
    return (oauth_code issued)

  pub answer_tokens : ℕ → Draw → VerificationResult → Device → M (World B) (VerifyAnswer Token)
  answer_tokens now d r device = do
    tokens ← Session.issue B env.session now d r.user_id device
    return (session_tokens tokens)

  pub answer :
      ℕ
      → Drawn
      → VerificationResult
      → Device
      → Option OAuthContext
      → M (World B) (VerifyAnswer Token)
  unfolding answer_tokens answer_code
  answer now d r device none = answer_tokens now d.session r device
  answer now d r device (some context) = answer_code now d.code r context

  -- What follows the verification of the proof. The nullifier is registered before the challenge is
  -- consumed.
  pub admit :
      ℕ → Drawn → VerifyRequest Token → VerificationResult → M (World B) (VerifyAnswer Token)
  unfolding activate_pending answer
  admit now d req r = do
    activate_pending now r.user_id req.recovery_token
    register B env.lock_ttl_s now (registration req.body r)
    consume B now req.body.challenge_id
    answer now d r req.device req.body.oauth_context

  unfoldable pub check_proof : VerifyBody → ChallengePayload → Bool → M (World B) VerificationResult
  check_proof body payload true = throw replay
  check_proof body payload false = verify B env.zkp (input_of body payload)

  unfoldable pub post_verify : ℕ → Drawn → VerifyRequest Token → M (World B) (VerifyAnswer Token)
  unfolding check_proof admit
  post_verify now d req = do
    payload ← fetch B now req.body.challenge_id
    already_spent ← exists B (ZkpEnv.name env.zkp req.body.nullifier)
    r ← check_proof req.body payload already_spent
    admit now d req r

  -- A challenge is bound to the user of the commitment only if that user is ACTIVE.
  abbrev pub active_id : Option (ℕ × UserRow) → Option ℕ
  active_id none = none
  active_id (some (id, row)) = if is_active_status row.status then some id else none

  pub post_challenge : ℕ → ℕ → ℕ → Option ℕ → M (World B) ChallengeRecord
  post_challenge now id nonce none = Challenge.issue B env.challenge_ttl_s now id nonce none
  post_challenge now id nonce (some commitment) = do
    user ← in_user_rows (find_first B.user_rows (by_commitment B env.zkp commitment))
    Challenge.issue B env.challenge_ttl_s now id nonce (active_id user)

  -- The refresh token of the body, or else of the cookie.
  abbrev pub either_token : Option Token → Option Token → Option Token
  either_token (some token) cookie = some token
  either_token none cookie = cookie

  pub refresh_with : ℕ → Draw → Device → Option Token → M (World B) (AuthTokens Token)
  refresh_with now d device none = throw (app_error invalid_token 400)
  refresh_with now d device (some token) = rotate B env.session now d token device

  pub post_refresh :
      ℕ → Draw → Device → Option Token → Option Token → M (World B) (AuthTokens Token)
  unfolding refresh_with
  post_refresh now d device body cookie = refresh_with now d device (either_token body cookie)

  -- `true` is `all_devices`.
  pub post_logout : ℕ → ℕ → ℕ → Bool → M (World B) (Unit {0})
  post_logout now session_id user true = do
    count ← revoke_all_for_user B env.session user
    return tt
  post_logout now session_id user false = revoke_session B env.session now session_id user
