-- ===== src/AuthGuard/Laws.antt =====
-- What the authentication middleware lets through (backend/src/middleware/auth.middleware.ts).
use zk_auth.Prelude.{
  ℕ, ◌≡◌, ◌⊎◌, inl, inr, refl, arith, true, false, Option, none, some, ◌∷◌, ◌++◌, Option-cases,
}
use zk_auth.Errors.{Error, unauthorized_401}
use zk_auth.Effects.{ok, err, forget, Succeeds, Outcome-cases}
use zk_auth.Text.{Text, space, same_text, lower}
use zk_auth.Text.Laws.{NoSpace, split_words}
use zk_auth.Stores.{Keyspace}
use zk_auth.Schema.{Backends}
use zk_auth.World.{World}
use zk_auth.Tokens.{Jwt, Claims, access_key, valid}
use zk_auth.Session.{Env, revoke_session, verify_access_token}
use zk_auth.Session.Laws.{session, active}
use zk_auth.Session.Access.{verify-revoke}
use zk_auth.AuthGuard.{bearer, extract_bearer_token, session_of, auth_middleware}

-- The header is the word Bearer in any letter case, one space and a token that is not empty and has
-- no space: the token is extracted.
pub extract_bearer :
    (word token : Text) (c : ℕ)
    → NoSpace word
    → NoSpace (c ∷ token)
    → same_text (lower word) bearer ≡ true
    → extract_bearer_token (some (word ++ space ∷ c ∷ token)) ≡ some (c ∷ token)
unfolding extract_bearer_token
extract_bearer word token c hw ht same = rw (split_words word (c ∷ token) hw ht, same) refl

module _ (B : Backends) (env : Env) (token_of : Text → Jwt.Token env.jwt) where
  -- A request that the middleware lets through carried a bearer token that `verify_access_token`
  -- accepts, and the session it is given is that of the token, with the risk level found there. All
  -- other requests fail, by UNAUTHORIZED without reading anything where there is no bearer token.
  pub auth_lem :
      (now : ℕ) (header : Option Text) (w : World B)
      → ((raw : Text) × (c : Claims) × (extract_bearer_token header ≡ some raw)
          × (forget (verify_access_token B env now (token_of raw) w) ≡ ok c tt)
          × (forget (auth_middleware B env token_of now header w) ≡ ok (session_of c) tt))
        ⊎ ((raw : Text) × (e : Error) × (extract_bearer_token header ≡ some raw)
            × (forget (verify_access_token B env now (token_of raw) w) ≡ err e tt)
            × (forget (auth_middleware B env token_of now header w) ≡ err e tt))
        ⊎ ((extract_bearer_token header ≡ none)
            × (auth_middleware B env token_of now header w ≡ err unauthorized_401 w))
  unfolding auth_middleware
  auth_lem now header w = elim (Option-cases (extract_bearer_token header)) [
    | inl e ↦ inr (inr (e, ground (arith, e)))
    | inr (raw, e) ↦ elim (Outcome-cases (verify_access_token B env now (token_of raw) w)) [
      | inl (c, w', v) ↦ inl (raw, c, e, ground (arith, v), ground (arith, e, v))
      | inr (x, w', v) ↦ inr (inl (raw, x, e, ground (arith, v), ground (arith, e, v)))
    ]
  ]

  -- After an active session is revoked with Redis answering, no request with a token of that session
  -- passes the middleware in the state that is left.
  pub auth-revoke :
      (now id user : ℕ) (w w' : World B) (t : ℕ) (header : Option Text) (raw : Text) (c : Claims)
      → revoke_session B env now id user w ≡ ok tt w'
      → active B user (session B w id) ≡ true
      → Keyspace.down B.session_cache w.session_cache ≡ false
      → extract_bearer_token header ≡ some raw
      → Jwt.verify env.jwt access_key t (token_of raw) ≡ valid c
      → c.sid ≡ id
      → ¬ Succeeds (auth_middleware B env token_of t header w')
  unfolding auth_middleware
  auth-revoke now id user w w' t header raw c e was up h v s =
      let refused = verify-revoke B env now id user w w' t (token_of raw) c e was up v s in
      elim (Outcome-cases (verify_access_token B env t (token_of raw) w')) [
        | inl (a, x, q) ↦ absurd (refused (rw q tt))
        | inr (a, x, q) ↦ ground (arith, h, q)
      ]
