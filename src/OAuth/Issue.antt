-- ===== src/OAuth/Issue.antt =====
-- What the issue of an authorization code leaves behind
-- (backend/src/services/oauth/oauth.service.ts, `issueAuthorizationCode`).
use zk_auth.Prelude.{ℕ, ◌≡◌, ◌==◌, none, some, arith, if◌then◌else◌}
use zk_auth.Effects.{Outcome, ok, err}
use zk_auth.Stores.{Table}
use zk_auth.Schema.{Backends}
use zk_auth.World.{World, SameReplays}
use zk_auth.Session.{Env}
use zk_auth.OAuth.{ValidatedAuthorizeRequest, IssuedCode, code_row, issue_authorization_code}
use zk_auth.OAuth.Laws.{code_of}

module _ (B : Backends) (env : Env) (sha256 : ℕ → ℕ) where
  abbrev pub CodeIssued :
      ℕ
      → ℕ
      → ValidatedAuthorizeRequest
      → ℕ
      → ℕ
      → World B
      → ℕ
      → Outcome (World B) IssuedCode
      → Type 0
  CodeIssued now code v user hash w x (ok issued w') =
      (issued ≡ record { code = code; state = v.state; redirect_uri = v.redirect_uri })
      × (code_of B env sha256 w code ≡ none)
      × (code_of B env sha256 w' x ≡ (
          if code == x
          then some (code_row B env sha256 now v user hash)
          else code_of B env sha256 w x))
      × SameReplays w w'
      × (w'.session_rows ≡ w.session_rows)
  CodeIssued now code v user hash w x (err e w') = w' ≡ w

  -- A code is issued under a text that was no code, with the client, user, redirect URI, scope and
  -- PKCE challenge it is for, unused and for 60 seconds; no other code and no session changes. A
  -- failing issue changes nothing.
  pub issue-CodeIssued :
      (now code : ℕ) (v : ValidatedAuthorizeRequest) (user hash : ℕ) (w : World B) (x : ℕ)
      → CodeIssued now code v user hash w x
          (issue_authorization_code B env sha256 now code v user hash w)
  unfolding issue_authorization_code
  issue-CodeIssued now code v user hash w x = ground (
    arith,
    Table.clash_sound B.oauth_codes w.oauth_codes code (code_row B env sha256 now v user hash),
    Table.row-write B.oauth_codes code (code_row B env sha256 now v user hash) w.oauth_codes x,
  )
