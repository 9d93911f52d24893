-- ===== src/Login/Frames.antt =====
-- What the last step of a login yields, and which stores it leaves alone
-- (backend/src/controllers/auth.controller.ts, `postVerify`).
use zk_auth.Prelude.{ℕ, ◌≡◌, Option, none, some, arith, ◌==◌, if◌then◌else◌}
use zk_auth.Effects.{Outcome, ok, err, final, ◌>>=◌, return, >>=-split}
use zk_auth.Schema.{Backends, Device}
use zk_auth.World.{World, SameReplays}
use zk_auth.Session
use zk_auth.Session.{Draw, new_row}
use zk_auth.Session.Laws.{session}
use zk_auth.Session.Access.{issue-Issued}
use zk_auth.Zkp.{VerificationResult}
use zk_auth.OAuth.{
  ValidatedAuthorizeRequest, validate_authorize_request, issue_authorization_code, code_row,
}
use zk_auth.OAuth.Scopes.{Granted, Authorized, validate-Authorized}
use zk_auth.OAuth.Laws.{code_of}
use zk_auth.OAuth.Issue.{CodeIssued, issue-CodeIssued}
use zk_auth.Login.{
  LoginEnv, Drawn, OAuthContext, VerifyAnswer, session_tokens, oauth_code, Token, answer_code,
  answer_tokens, answer, params_of,
}

module _ (B : Backends) (env : LoginEnv) where
  -- What stands behind an answer: a new session of the user, or a new code that is bound to a grant
  -- and to the nullifier. `x` is any session or code.
  abbrev pub Yields :
      ℕ
      → Drawn
      → VerificationResult
      → Device
      → Option OAuthContext
      → World B
      → World B
      → ℕ
      → VerifyAnswer (Token B env)
      → Type 0
  Yields now d r device none w w' x (session_tokens tokens) = session B w' x ≡ (
      if d.session.session_id == x
      then some (new_row B env.session now r.user_id device d.session)
      else session B w x)
  Yields now d r device (some c) w w' x (oauth_code issued) =
      (v : ValidatedAuthorizeRequest) × Granted B env.session env.sha256 (params_of c) w v
      × (issued.redirect_uri ≡ v.redirect_uri)
      × (code_of B env.session env.sha256 w' x ≡ (
          if d.code == x
          then some (code_row B env.session env.sha256 now v r.user_id r.nullifier_hash)
          else code_of B env.session env.sha256 w x))
      × (session B w' x ≡ session B w x)
  Yields now d r device none w w' x (oauth_code issued) = ⊥
  Yields now d r device (some c) w w' x (session_tokens tokens) = ⊥

  abbrev pub Answered :
      ℕ
      → Drawn
      → VerificationResult
      → Device
      → Option OAuthContext
      → World B
      → ℕ
      → Outcome (World B) (VerifyAnswer (Token B env))
      → Type 0
  Answered now d r device c w x (ok a w') = Yields now d r device c w w' x a × SameReplays w w'
  Answered now d r device c w x (err e w') = w' ≡ w

  issue_replays :
      (now : ℕ) (d : Draw) (user : ℕ) (device : Device) (w : World B)
      → SameReplays w (final (Session.issue B env.session now d user device w))
  unfolding Session.issue
  issue_replays now d user device w = (ground arith, ground arith, ground arith)

  issue_outcome :
      (now : ℕ) (d : Drawn) (r : VerificationResult) (device : Device) (w : World B) (x : ℕ)
      → Answered now d r device none w x (answer_tokens B env now d.session r device w)
  unfolding answer_tokens
  issue_outcome now d r device w x =
      let facts = issue-Issued B env.session now d.session r.user_id device w 0 x in
      let same = issue_replays now d.session r.user_id device w in
      >>=-split (Answered now d r device none w x)
        (Session.issue B env.session now d.session r.user_id device) _ w
        (λ tokens v e. (ground (arith, e, facts), rw e at same)) (λ y v e. ground (arith, e, facts))

  code_outcome :
      (now : ℕ) (d : Drawn) (r : VerificationResult) (device : Device) (c : OAuthContext)
      (w : World B) (x : ℕ)
      → Answered now d r device (some c) w x (answer_code B env now d.code r c w)
  unfolding answer_code
  code_outcome now d r device c w x =
      let seen = validate-Authorized B env.session env.sha256 (params_of c) w in
      >>=-split (Answered now d r device (some c) w x)
        (validate_authorize_request B env.session env.sha256 (params_of c)) _ w
        (λ v u e.
          let granted : Authorized B env.session env.sha256 (params_of c) w (ok v u) =
            rw e at seen in
          minted v u granted.0 granted.1)
        (λ y u e. ground (arith, e, seen))
    where
      minted :
          (v : ValidatedAuthorizeRequest) (u : World B)
          → u ≡ w
          → Granted B env.session env.sha256 (params_of c) w v
          → Answered now d r device (some c) w x (
              (issue_authorization_code B env.session env.sha256 now d.code v r.user_id
                    r.nullifier_hash
                  >>= λ issued. return (oauth_code issued))
                u)
      minted v u same granted =
          let facts =
            issue-CodeIssued B env.session env.sha256 now d.code v r.user_id r.nullifier_hash u x in
          >>=-split (Answered now d r device (some c) w x)
            (issue_authorization_code B env.session env.sha256 now d.code v r.user_id
              r.nullifier_hash)
            _ u
            (λ issued t e.
              let known : CodeIssued B env.session env.sha256 now d.code v r.user_id
                  r.nullifier_hash u x (ok issued t) =
                rw e at facts in
              (
                (
                  v,
                  granted,
                  ground (arith, known),
                  ground (arith, known, same),
                  ground (arith, known, same),
                ),
                (
                  ground (arith, known, same),
                  ground (arith, known, same),
                  ground (arith, known, same),
                ),
              ))
            (λ y t e. ground (arith, e, facts, same))

  -- The last step, of a login without and with an OAuth context. Where it fails, it changes nothing.
  pub answer-Answered :
      (now : ℕ) (d : Drawn) (r : VerificationResult) (device : Device) (c : Option OAuthContext)
      (w : World B) (x : ℕ)
      → Answered now d r device c w x (answer B env now d r device c w)
  unfolding answer
  answer-Answered now d r device none w x = issue_outcome now d r device w x
  answer-Answered now d r device (some c) w x = code_outcome now d r device c w x
