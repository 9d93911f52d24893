-- ===== src/AuthGuard.antt =====
-- The token authentication of backend/src/middleware/auth.middleware.ts and the issuer check of
-- backend/src/middleware/issuerRole.middleware.ts. A header is a list of character codes.
pub mod Laws
mod Examples
use zk_auth.Prelude.{
  ℕ, ◌+◌, ◌≤◌, ◌==◌, leb, Bool, true, false, ◌&&◌, Option, none, some, List, [], ◌∷◌, if◌then◌else◌,
}
use zk_auth.Errors.{Error, unauthorized_401, forbidden_403}
use zk_auth.Effects.{M, Outcome, ok, err, ◌>>=◌, ◌>>◌, return, throw, try_catch, best_effort}
use zk_auth.Text.{Text, same_text, lower, split}
use zk_auth.Stores.{update}
use zk_auth.Schema.{Backends, SessionRow, RiskLevel}
use zk_auth.World.{World, in_session_rows}
use zk_auth.Tokens.{Jwt, Claims}
use zk_auth.Session.{Env, verify_access_token}

abbrev pub bearer : Text
bearer = 98 ∷ 101 ∷ 97 ∷ 114 ∷ 101 ∷ 114 ∷ []

abbrev pub second_part : Text × List Text → Option Text
second_part (first, [] ∷ []) = none
second_part (first, (c ∷ cs) ∷ []) = if same_text (lower first) bearer then some (c ∷ cs) else none
second_part (first, _) = none

pub extract_bearer_token : Option Text → Option Text
unfolding lower same_text split
extract_bearer_token none = none
extract_bearer_token (some header) = second_part (split header)

pub record AuthenticatedSession : Type 0 where
  pub user_id : ℕ
  pub session_id : ℕ
  pub risk_level : RiskLevel

abbrev pub session_of : Claims → AuthenticatedSession
session_of c = record { user_id = c.sub; session_id = c.sid; risk_level = c.risk }

abbrev pub touched : ℕ → SessionRow → SessionRow
touched now row = record row { last_active_at = now }

module _ (B : Backends) (env : Env) (token_of : Text → Jwt.Token env.jwt) where
  -- The update of the row is not awaited; it is modelled at the moment it is started.
  abbrev pub update_last_active : ℕ → ℕ → M (World B) (Unit {0})
  update_last_active now session_id =
      best_effort (in_session_rows (update B.session_rows session_id (touched now)))

  abbrev pub authenticate : ℕ → Option Text → M (World B) AuthenticatedSession
  authenticate now none = throw unauthorized_401
  authenticate now (some raw) = do
    decoded ← verify_access_token B env now (token_of raw)
    update_last_active now decoded.sid
    return (session_of decoded)

  pub auth_middleware : ℕ → Option Text → M (World B) AuthenticatedSession
  auth_middleware now header = authenticate now (extract_bearer_token header)

  -- `none` is an anonymous caller: without a token, or with one that is not accepted.
  abbrev pub identify : ℕ → Option Text → M (World B) (Option AuthenticatedSession)
  identify now none = return none
  identify now (some raw) =
      try_catch
        (do
          decoded ← verify_access_token B env now (token_of raw)
          return (some (session_of decoded)))
        λ _. return none

  pub optional_auth : ℕ → Option Text → M (World B) (Option AuthenticatedSession)
  optional_auth now header = identify now (extract_bearer_token header)

-- The issuer token of the request and ISSUER_SECRET_TOKEN, where they are set; an empty text counts as
-- not set.
pub require_issuer_role : Option Text → Option Text → Outcome (Unit {0}) (Unit {0})
unfolding same_text
require_issuer_role token none = err forbidden_403 tt
require_issuer_role token (some []) = err forbidden_403 tt
require_issuer_role none (some (c ∷ cs)) = err forbidden_403 tt
require_issuer_role (some token) (some (c ∷ cs)) =
    if same_text token (c ∷ cs) then ok tt tt else err forbidden_403 tt
