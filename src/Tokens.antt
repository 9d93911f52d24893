-- ===== src/Tokens.antt =====
-- JSON Web Tokens as the backend uses them (the package jsonwebtoken), as parameters. The two signing secrets of backend/src/config/env.ts are the
-- two keys.
use zk_auth.Prelude.{ℕ, ◌+◌, ◌*◌, ◌≡◌, ◌≢◌, ltb, if◌then◌else◌}
use zk_auth.Schema.{RiskLevel}

pub data Key : Type 0 where
  access_key refresh_key : Key

pub data TokenType : Type 0 where
  access refresh recovery : TokenType

-- `JwtAccessPayload`, `JwtRefreshPayload` and the claims of a recovery token in one record; `jti` is
-- read of a refresh token only, and `sid` and `risk` not of a recovery token.
pub record Claims : Type 0 where
  pub sub : ℕ
  pub sid : ℕ
  pub risk : RiskLevel
  pub jti : ℕ
  pub type : TokenType

pub data Verdict : Type 0 where
  valid : Claims → Verdict
  token_expired_error other_failure : Verdict

-- `sign key seconds iat claims`, at the time `iat` in milliseconds, and `verify key now token`. The
-- equations are what the package documents: a token verifies under its key until it expires and is
-- told as expired after, and under another key it fails otherwise.
pub record Jwt : Type 1 where
  pub Token : Type 0
  pub sign : Key → ℕ → ℕ → Claims → Token
  pub verify : Key → ℕ → Token → Verdict
  pub verify-sign :
      (k : Key) (seconds iat now : ℕ) (c : Claims)
      → verify k now (sign k seconds iat c)
        ≡ (if ltb now (iat + seconds * 1000) then valid c else token_expired_error)
  pub verify-sign_ne :
      (k l : Key) (seconds iat now : ℕ) (c : Claims)
      → k ≢ l
      → verify k now (sign l seconds iat c) ≡ other_failure
  -- The claims are part of the token.
  pub verify_fixed :
      (k : Key) (t u : ℕ) (token : Token) (a b : Claims)
      → verify k t token ≡ valid a
      → verify k u token ≡ valid b
      → a ≡ b
