-- ===== src/AuthGuard/Examples.antt =====
-- Requests with bearer tokens, over the stores in memory: the token is one character, the number of
-- the session.
use zk_auth.Prelude.{refl, none, some, [], ◌∷◌, ◌++◌, get_or}
use zk_auth.Errors.{unauthorized_401}
use zk_auth.Effects.{final, FailsWith, Succeeds}
use zk_auth.Stores.{updated}
use zk_auth.World.{World}
use zk_auth.Tokens.{access_key}
use zk_auth.Fixtures.{memory, empty, env, device, Sealed, seal}
use zk_auth.Session.{access_claims, issue, revoke_session, verify_access_token}
use zk_auth.Text.{Text, space}
use zk_auth.AuthGuard.{auth_middleware, extract_bearer_token, require_issuer_role, optional_auth}
use zk_auth.AuthGuard.Laws.{auth-revoke}

abbrev token_of : Text → Sealed
token_of t = seal access_key 900 0 (access_claims 1 (get_or t 0 0))

abbrev word : Text
word = 66 ∷ 101 ∷ 97 ∷ 114 ∷ 101 ∷ 114 ∷ []

abbrev header : Text
header = word ++ space ∷ 49 ∷ []

abbrev logged_in : World memory
logged_in = final (issue memory env 0 (record { session_id = 49; refresh_jti = 3 }) 1 device empty)

abbrev revoked : World memory
revoked = final (revoke_session memory env 6000 49 1 logged_in)

guards : Unit {0}
unfolding issue revoke_session updated verify_access_token auth_middleware optional_auth
    extract_bearer_token require_issuer_role
guards = tt

guards_test :
    Succeeds (auth_middleware memory env token_of 1000 (some header) logged_in)
    × FailsWith unauthorized_401 (auth_middleware memory env token_of 1000 (some word) logged_in)
    × Succeeds (optional_auth memory env token_of 7000 (some header) revoked)
    × Succeeds (require_issuer_role (some word) (some word))
    × (¬ Succeeds (require_issuer_role none (some word)))
unfolding guards
guards_test = (tt, refl, tt, tt, λ h. h)

auth-revoke_example : ¬ Succeeds (auth_middleware memory env token_of 7000 (some header) revoked)
unfolding guards
auth-revoke_example =
    auth-revoke memory env token_of 6000 49 1 logged_in revoked 7000 (some header) (49 ∷ [])
      (access_claims 1 49) refl refl refl refl refl refl
