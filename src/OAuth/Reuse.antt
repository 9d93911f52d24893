-- ===== src/OAuth/Reuse.antt =====
-- Authorization codes that are presented again, and clients that present no secret
-- (backend/src/services/oauth/oauth.service.ts, `exchangeCodeForToken`).
use zk_auth.Prelude.{ℕ, ◌≤◌, ◌≡◌, refl, inl, inr, true, false, none, some, arith}
use zk_auth.Effects.{ok, err, final, FailsWith, Succeeds, Outcome-cases}
use zk_auth.Stores.{Table, updated}
use zk_auth.Schema.{Backends, OAuthClientRow, OAuthCodeRow}
use zk_auth.World.{World}
use zk_auth.Session.{Env, Draw, new_row, issue, revoke_all_for_user}
use zk_auth.Session.Laws.{session, active, revoked_if, revoke_all-RevokedAll, revoke_all_up}
use zk_auth.OAuth.{
  TokenExchangeParams, is_code_grant, invalid_grant_400, no_device, secret_matches, mark_used,
  is_redeemable, check_code, read_code, mark_code, redeem, exchange_client, exchange_code_for_token,
}
use zk_auth.OAuth.Laws.{code_of, client_of, refuse_reused_lem, read_answers, exchange_answers}

module _ (B : Backends) (env : Env) (sha256 : ℕ → ℕ) where
  -- The client that the request names is there and active, and the secret is its secret if the
  -- request has one.
  pub record Admitted (p : TokenExchangeParams) (w : World B) (id : ℕ) : Type 0 where
    pub client : OAuthClientRow
    pub grant : is_code_grant p.grant_type ≡ true
    pub up : Table.down B.oauth_clients w.oauth_clients ≡ false
    pub codes_up : Table.down B.oauth_codes w.oauth_codes ≡ false
    pub found : client_of B env sha256 w p.client_id ≡ some (id, client)
    pub is_active : client.is_active ≡ true
    pub secret : secret_matches B env sha256 p.client_secret client.client_secret_hash ≡ true

  admitted_lem :
      (now : ℕ) (d : Draw) (p : TokenExchangeParams) (w : World B) (id : ℕ)
      → Admitted p w id
      → exchange_code_for_token B env sha256 now d p w ≡ redeem B env sha256 now d id p w
  unfolding exchange_client
  admitted_lem now d p w id a = ground (
    arith,
    exchange_answers B env sha256 now d p w,
    a.grant,
    a.up,
    a.found,
    a.is_active,
    a.secret,
  )

  read_used :
      (now id : ℕ) (p : TokenExchangeParams) (w : World B) (row : OAuthCodeRow)
      → Table.down B.oauth_codes w.oauth_codes ≡ false
      → code_of B env sha256 w p.code ≡ some row
      → row.is_used ≡ true
      → read_code B env sha256 now id p w
        ≡ err invalid_grant_400 (final (revoke_all_for_user B env row.user_id w))
  unfolding check_code
  read_used now id p w row up found used =
      ground
        (arith, read_answers B env sha256 now id p w, refuse_reused_lem B env sha256 row.user_id w)

  redeem_used :
      (now : ℕ) (d : Draw) (p : TokenExchangeParams) (w : World B) (id : ℕ) (row : OAuthCodeRow)
      → Admitted p w id
      → code_of B env sha256 w p.code ≡ some row
      → row.is_used ≡ true
      → exchange_code_for_token B env sha256 now d p w
        ≡ err invalid_grant_400 (final (revoke_all_for_user B env row.user_id w))
  unfolding redeem
  redeem_used now d p w id row a found used =
      ground (arith, admitted_lem now d p w id a, read_used now id p w row a.codes_up found used)

  -- A code that was used already is refused as INVALID_GRANT, and all sessions of the user it was
  -- issued for are revoked, for every admitted client and whatever else the request says, where the
  -- sessions' table answers.
  pub exchange_reused :
      (now : ℕ) (d : Draw) (p : TokenExchangeParams) (w : World B) (id : ℕ) (row : OAuthCodeRow)
      (x : ℕ)
      → Admitted p w id
      → code_of B env sha256 w p.code ≡ some row
      → row.is_used ≡ true
      → Table.down B.session_rows w.session_rows ≡ false
      → FailsWith invalid_grant_400 (exchange_code_for_token B env sha256 now d p w)
        × (session B (final (exchange_code_for_token B env sha256 now d p w)) x
            ≡ revoked_if B (active B row.user_id (session B w x)) (session B w x))
  exchange_reused now d p w id row x a found used up =
      rw (redeem_used now d p w id row a found used) (
        refl,
        elim (Outcome-cases (revoke_all_for_user B env row.user_id w)) [
          | inl (n, w', e) ↦ ground (arith, e, revoke_all-RevokedAll B env row.user_id w now x)
          | inr (y, w', e) ↦ absurd (ground (arith, e, revoke_all_up B env row.user_id w up))
        ],
      )

  read_fits :
      (now id : ℕ) (p : TokenExchangeParams) (w : World B) (row : OAuthCodeRow)
      → Table.down B.oauth_codes w.oauth_codes ≡ false
      → code_of B env sha256 w p.code ≡ some row
      → row.is_used ≡ false
      → is_redeemable B env sha256 now id p row ≡ true
      → read_code B env sha256 now id p w ≡ ok row w
  unfolding check_code
  read_fits now id p w row up found unused fits =
      ground (arith, read_answers B env sha256 now id p w)

  issue_up :
      (now : ℕ) (d : Draw) (user : ℕ) (w : World B)
      → Table.down B.session_rows w.session_rows ≡ false
      → Table.clash B.session_rows w.session_rows d.session_id (new_row B env now user no_device d)
        ≡ false
      → Succeeds (issue B env now d user no_device w)
  unfolding issue
  issue_up now d user w up fresh = ground arith

  -- A client that presents no secret gets tokens for a code without a PKCE challenge, also where a
  -- secret is registered for it, if the code is unused, not expired and its own, the redirect URI is
  -- that of the code and the session's identifier and token are new.
  pub exchange_unauthenticated :
      (now : ℕ) (d : Draw) (p : TokenExchangeParams) (w : World B) (id : ℕ) (row : OAuthCodeRow)
      → Admitted p w id
      → p.client_secret ≡ none
      → row.code_challenge ≡ none
      → code_of B env sha256 w p.code ≡ some row
      → row.is_used ≡ false
      → now ≤ row.expires_at
      → row.client_id ≡ id
      → row.redirect_uri ≡ p.redirect_uri
      → Table.down B.session_rows w.session_rows ≡ false
      → Table.clash B.session_rows w.session_rows d.session_id
          (new_row B env now row.user_id no_device d)
        ≡ false
      → Succeeds (exchange_code_for_token B env sha256 now d p w)
  unfolding redeem mark_code
  exchange_unauthenticated now d p w id row a no_secret no_pkce found unused t c r up fresh =
      let fits : is_redeemable B env sha256 now id p row ≡ true =
        ground (arith, no_pkce, t, c, r) in
      rw (admitted_lem now d p w id a) (
        ground (
          arith,
          read_fits now id p w row a.codes_up found unused fits,
          found,
          a.codes_up,
          issue_up now d row.user_id
              (record w { oauth_codes = updated B.oauth_codes p.code mark_used w.oauth_codes }) up
              fresh,
        ))
