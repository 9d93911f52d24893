-- ===== src/Errors.antt =====
-- The errors of backend/src/utils/errors.ts and the envelope that
-- backend/src/middleware/errorHandler.middleware.ts answers with. Message texts are left out.
use zk_auth.Prelude.{ℕ}

pub data ErrorCode : Type 0 where
  invalid_proof nullifier_replay challenge_expired challenge_not_found invalid_token : ErrorCode
  token_expired token_revoked step_up_required : ErrorCode
  invalid_client invalid_grant invalid_request unauthorized_client : ErrorCode
  unsupported_grant_type invalid_scope : ErrorCode
  credential_not_found credential_revoked credential_expired invalid_claim_proof : ErrorCode
  user_not_found user_suspended commitment_already_registered : ErrorCode
  rate_limit_exceeded internal_error service_unavailable : ErrorCode
  validation_error not_found forbidden unauthorized : ErrorCode

-- What a handler may throw: an `AppError` with its code and HTTP status, Prisma's P2002, or any other
-- value, such as a Redis or database failure.
pub data Error : Type 0 where
  app_error : ErrorCode → ℕ → Error
  unique_violation : Error
  other_error : Error

abbrev pub validation : Error
validation = app_error validation_error 400

abbrev pub unauthorized_401 : Error
unauthorized_401 = app_error unauthorized 401

abbrev pub forbidden_403 : Error
forbidden_403 = app_error forbidden 403

abbrev pub not_found_404 : Error
not_found_404 = app_error not_found 404

abbrev pub rate_limited : Error
rate_limited = app_error rate_limit_exceeded 429

abbrev pub step_up_403 : Error
step_up_403 = app_error step_up_required 403

abbrev pub replay : Error
replay = app_error nullifier_replay 400

pub record Envelope : Type 0 where
  pub status : ℕ
  pub code : ErrorCode

-- The error handler.
pub respond : Error → Envelope
respond (app_error code status) = record { status = status; code = code }
respond _ = record { status = 500; code = internal_error }
