-- ===== src/Schema.antt =====
-- The rows of backend/prisma/schema.prisma and the JSON values of the Redis keys, as far as the
-- services read or write them, and the interfaces of all the stores together.
use zk_auth.Prelude.{ℕ, Bool, Option, List}
use zk_auth.Text.{Text}
use zk_auth.Stores.{Keyspace, MemberSet, Table, Journal}

pub data RiskLevel : Type 0 where
  low medium high critical : RiskLevel

pub data StepUpLevel : Type 0 where
  soft hard : StepUpLevel

pub data UserStatus : Type 0 where
  active suspended pending_verify : UserStatus

pub data ChallengeStatus : Type 0 where
  pending consumed expired : ChallengeStatus

-- `RedisChallengePayload`
pub record ChallengePayload : Type 0 where
  pub nonce : ℕ
  pub user_id : Option ℕ
  pub created_at : ℕ

-- `SessionCacheEntry`
pub record SessionCacheEntry : Type 0 where
  pub user_id : ℕ
  pub risk_level : RiskLevel
  pub step_up_required : Bool
  pub step_up_level : Option StepUpLevel
  pub created_at : ℕ

pub record StepUpEntry : Type 0 where
  pub required_level : StepUpLevel
  pub issued_at : ℕ

pub record ChallengeRow : Type 0 where
  pub user_id : Option ℕ
  pub nonce : ℕ
  pub status : ChallengeStatus
  pub expires_at : ℕ
  pub consumed_at : Option ℕ

-- The primary key is the nullifier hash.
pub record NullifierRow : Type 0 where
  pub user_id : ℕ
  pub challenge_id : ℕ
  pub recorded_at : ℕ

-- What a client tells about its device.
pub record Device : Type 0 where
  pub fingerprint : Option ℕ
  pub ip_address : Option ℕ
  pub label : Option ℕ
  pub user_agent : Option ℕ

pub record SessionRow : Type 0 where
  pub user_id : ℕ
  pub refresh_token_hash : ℕ
  pub device : Device
  pub risk_level : RiskLevel
  pub is_revoked : Bool
  pub expires_at : ℕ
  pub last_active_at : ℕ

pub record UserRow : Type 0 where
  pub commitment_hash : ℕ
  pub public_key : ℕ
  pub status : UserStatus
  pub last_login_at : Option ℕ

-- `code_hash` is the encoded Argon2 hash, with its salt and parameters.
pub record RecoveryCodeRow : Type 0 where
  pub user_id : ℕ
  pub code_hash : ℕ
  pub is_used : Bool
  pub used_at : Option ℕ
  pub superseded_at : Option ℕ

-- The public client id is a column; the primary key is the row's own id.
pub record OAuthClientRow : Type 0 where
  pub client_id : ℕ
  pub client_secret_hash : Option ℕ
  pub redirect_uris : List ℕ
  pub scopes : List Text
  pub is_active : Bool

pub data ChallengeMethod : Type 0 where
  s256 other_method : ChallengeMethod

-- The primary key is the code. An empty code challenge counts as none.
pub record OAuthCodeRow : Type 0 where
  pub client_id : ℕ
  pub user_id : ℕ
  pub redirect_uri : ℕ
  pub scope : Text
  pub state : Option ℕ
  pub code_challenge : Option ℕ
  pub code_challenge_method : Option ChallengeMethod
  pub nullifier_hash : ℕ
  pub is_used : Bool
  pub expires_at : ℕ

-- A row of telemetry.risk_scores.
pub record RiskScoreRow : Type 0 where
  pub session_id : ℕ
  pub user_id : ℕ
  pub risk_score : ℕ
  pub risk_level : RiskLevel
  pub model_version : ℕ
  pub event_window : ℕ

-- The messages that the backend sends over the WebSocket of a session.
pub data WsMessage : Type 0 where
  risk_update : ℕ → RiskLevel → ℕ → WsMessage
  step_up_event : ℕ → ℕ → StepUpLevel → ℕ → WsMessage
  step_up_resolved : ℕ → WsMessage
  session_terminated pong : WsMessage

pub record Backends : Type 1 where
  pub challenges : Keyspace ChallengePayload
  pub session_cache : Keyspace SessionCacheEntry
  pub step_ups : Keyspace StepUpEntry
  pub nullifier_locks : Keyspace (Unit {0})
  pub nullifiers : MemberSet
  pub challenge_rows : Table ChallengeRow
  pub nullifier_rows : Table NullifierRow
  pub session_rows : Table SessionRow
  pub user_rows : Table UserRow
  pub recovery_codes : Table RecoveryCodeRow
  pub oauth_clients : Table OAuthClientRow
  pub oauth_codes : Table OAuthCodeRow
  pub risk_scores : Journal RiskScoreRow
