-- ===== src/OAuth/Laws.antt =====
-- The exchange of authorization codes (backend/src/services/oauth/oauth.service.ts,
-- `exchangeCodeForToken`).
use zk_auth.Prelude.{
  ℕ, ◌≤◌, ◌≡◌, refl, ◌==◌, inl, inr, Bool, true, false, Option, none, some, arith, Bool-cases,
  if◌then◌else◌,
}
use zk_auth.Errors.{app_error, unsupported_grant_type, other_error}
use zk_auth.Effects.{Outcome, ok, err, final, Outcome-cases, >>=-ok}
use zk_auth.Stores.{Table, first_of_keys, find_first_lem, row-updated, mapped}
use zk_auth.Schema.{Backends, OAuthClientRow, OAuthCodeRow}
use zk_auth.World.{World}
use zk_auth.Tokens.{Jwt}
use zk_auth.Session.{Env, Draw, AuthTokens, issue, new_row, revoke_all_for_user}
use zk_auth.Session.Laws.{session}
use zk_auth.Session.Access.{Issued, issue-Issued}
use zk_auth.OAuth.{
  TokenExchangeParams, is_code_grant, invalid_grant_400, no_device, mark_used, with_client_id,
  active_client, secret_matches, pkce_matches, is_redeemable, refuse_reused, check_code, read_code,
  mark_code, redeem, exchange_client, exchange_code_for_token,
}

module _ (B : Backends) (env : Env) (sha256 : ℕ → ℕ) where
  abbrev pub code_of : World B → ℕ → Option OAuthCodeRow
  code_of w code = Table.row B.oauth_codes w.oauth_codes code

  -- What a read of a code that passed all tests has seen.
  abbrev pub Seen : ℕ → ℕ → TokenExchangeParams → World B → Outcome (World B) OAuthCodeRow → Type 0
  Seen now client p w (ok row w') =
      (w' ≡ w)
      × (code_of w p.code ≡ some row)
      × (row.is_used ≡ false)
      × (is_redeemable B env sha256 now client p row ≡ true)
  Seen now client p w (err e w') = Unit

  pub refuse_reused_lem :
      (user : ℕ) (w : World B)
      → refuse_reused B env sha256 user w
        ≡ err invalid_grant_400 (final (revoke_all_for_user B env user w))
  unfolding refuse_reused
  refuse_reused_lem user w = elim (Outcome-cases (revoke_all_for_user B env user w)) [
    | inl (n, w', e) ↦ ground (arith, e)
    | inr (x, w', e) ↦ ground (arith, e)
  ]

  check_code_lem :
      (now client : ℕ) (p : TokenExchangeParams) (w : World B) (row : Option OAuthCodeRow)
      → code_of w p.code ≡ row
      → Seen now client p w (check_code B env sha256 now client p row w)
  unfolding check_code
  check_code_lem now client p w none h = tt
  check_code_lem now client p w (some row) h = elim (Bool-cases row.is_used) [
    | inl u ↦ simp (u, refuse_reused_lem row.user_id w) (tt)
    | inr u ↦ elim (Bool-cases (is_redeemable B env sha256 now client p row)) [
      | inl r ↦ simp (u, r) (refl, h, refl, refl)
      | inr r ↦ simp (u, r) (tt)
    ]
  ]

  pub read_answers :
      (now client : ℕ) (p : TokenExchangeParams) (w : World B)
      → read_code B env sha256 now client p w ≡ (
          if Table.down B.oauth_codes w.oauth_codes
          then err other_error w
          else check_code B env sha256 now client p (code_of w p.code) w)
  unfolding read_code
  read_answers now client p w = ground arith

  pub read-Seen :
      (now client : ℕ) (p : TokenExchangeParams) (w : World B)
      → Seen now client p w (read_code B env sha256 now client p w)
  read-Seen now client p w =
      rw (read_answers now client p w) (by_down (Table.down B.oauth_codes w.oauth_codes))
    where
      by_down :
          (down : Bool)
          → Seen now client p w (
              if down
              then err other_error w
              else check_code B env sha256 now client p (code_of w p.code) w)
      by_down true = tt
      by_down false = check_code_lem now client p w (code_of w p.code) refl

  -- What the tests of a redeemable code say.
  redeemable_lem :
      (now client : ℕ) (p : TokenExchangeParams) (row : OAuthCodeRow)
      → is_redeemable B env sha256 now client p row ≡ true
      → (now ≤ row.expires_at)
        × (row.client_id ≡ client)
        × (row.redirect_uri ≡ p.redirect_uri)
        × (pkce_matches B env sha256 row.code_challenge p.code_verifier ≡ true)
  redeemable_lem now client p row h =
      (ground (arith, h), ground (arith, h), ground (arith, h), ground (arith, h))

  -- What stands behind the tokens of an exchange, and what it leaves of a code `c` and a session `x`.
  pub record Exchanged (now : ℕ) (d : Draw) (p : TokenExchangeParams) (w w' : World B) (c x : ℕ)
      : Type 0 where
    pub client_id : ℕ
    pub client : OAuthClientRow
    pub row : OAuthCodeRow
    pub client_found : Table.row B.oauth_clients w.oauth_clients client_id ≡ some client
    pub client_active : (client.client_id ≡ p.client_id) × (client.is_active ≡ true)
    pub secret : secret_matches B env sha256 p.client_secret client.client_secret_hash ≡ true
    pub code_found : code_of w p.code ≡ some row
    pub unused : row.is_used ≡ false
    pub unexpired : now ≤ row.expires_at
    pub for_client : row.client_id ≡ client_id
    pub redirect : row.redirect_uri ≡ p.redirect_uri
    pub pkce : pkce_matches B env sha256 row.code_challenge p.code_verifier ≡ true
    pub codes_left : code_of w' c ≡ (if p.code == c then some (mark_used row) else code_of w c)
    pub session_left : session B w' x ≡ (
        if d.session_id == x
        then some (new_row B env now row.user_id no_device d)
        else session B w x)

  pub mark_code_lem :
      (code : ℕ) (w w' : World B) (c x : ℕ)
      → mark_code B env sha256 code w ≡ ok tt w'
      → (code_of w' c
          ≡ (if code == c then mapped B.oauth_codes mark_used (code_of w code) else code_of w c))
        × (session B w' x ≡ session B w x)
  unfolding mark_code
  mark_code_lem code w w' c x e =
      ground (arith, e, row-updated B.oauth_codes code mark_used w.oauth_codes c)

  pub issue_codes :
      (now : ℕ) (d : Draw) (user : ℕ) (w : World B)
      → (final (issue B env now d user no_device w)).oauth_codes ≡ w.oauth_codes
  unfolding issue
  issue_codes now d user w = ground arith

  abbrev pub client_of : World B → ℕ → Option (ℕ × OAuthClientRow)
  client_of w id =
      first_of_keys B.oauth_clients
        (Table.find_keys B.oauth_clients (with_client_id B env sha256 id) w.oauth_clients)
        w.oauth_clients

  redeemed :
      (now : ℕ) (d : Draw) (p : TokenExchangeParams) (w w' : World B)
      (tokens : AuthTokens (Jwt.Token env.jwt)) (id : ℕ) (client : OAuthClientRow) (c x : ℕ)
      → client_of w p.client_id ≡ some (id, client)
      → client.is_active ≡ true
      → secret_matches B env sha256 p.client_secret client.client_secret_hash ≡ true
      → redeem B env sha256 now d id p w ≡ ok tokens w'
      → Exchanged now d p w w' c x
  unfolding redeem
  redeemed now d p w w' tokens id client c x f a k e =
      let (row, u, read, e1) = >>=-ok (read_code B env sha256 now id p) _ w w' tokens e in
      let (_, v, mark, e2) = >>=-ok (mark_code B env sha256 p.code) _ u w' tokens e1 in
      let seen : Seen now id p w (ok row u) = rw read at (read-Seen now id p w) in
      let (same, found, unused, fits) = seen in
      let (unexpired, for_client, redirect, pkce) = redeemable_lem now id p row fits in
      let (client_found, named) =
        find_first_lem B.oauth_clients (with_client_id B env sha256 p.client_id) w.oauth_clients id
          client f in
      let (codes, sessions) = mark_code_lem p.code u v c x mark in
      let issued : Issued B env now d row.user_id no_device v 0 x (ok tokens w') =
        rw e2 at (issue-Issued B env now d row.user_id no_device v 0 x) in
      let kept : w'.oauth_codes ≡ v.oauth_codes = rw e2 at (issue_codes now d row.user_id v) in
      record {
        client_id = id;
        client = client;
        row = row;
        client_found = client_found;
        client_active = (ground (arith, named), a);
        secret = k;
        code_found = found;
        unused = unused;
        unexpired = unexpired;
        for_client = for_client;
        redirect = redirect;
        pkce = pkce;
        codes_left = ground (arith, codes, kept, found, mapped B.oauth_codes);
        session_left = ground (arith, issued, sessions, same);
      }

  exchange_client_lem :
      (now : ℕ) (d : Draw) (p : TokenExchangeParams) (w w' : World B)
      (tokens : AuthTokens (Jwt.Token env.jwt)) (found : Option (ℕ × OAuthClientRow)) (c x : ℕ)
      → client_of w p.client_id ≡ found
      → exchange_client B env sha256 now d p (active_client B env sha256 found) w ≡ ok tokens w'
      → Exchanged now d p w w' c x
  unfolding exchange_client
  exchange_client_lem now d p w w' tokens none c x f e = absurd (ground (arith, e))
  exchange_client_lem now d p w w' tokens (some (id, client)) c x f e =
      elim (Bool-cases client.is_active) [
        | inl a ↦
            elim (Bool-cases
              (secret_matches B env sha256 p.client_secret client.client_secret_hash)) [
                | inl k ↦ redeemed now d p w w' tokens id client c x f a k (ground (arith, e, a, k))
                | inr k ↦ absurd (ground (arith, e, a, k))
              ]
        | inr a ↦ absurd (ground (arith, e, a))
      ]

  pub exchange_answers :
      (now : ℕ) (d : Draw) (p : TokenExchangeParams) (w : World B)
      → exchange_code_for_token B env sha256 now d p w ≡ (
          if is_code_grant p.grant_type
          then (if Table.down B.oauth_clients w.oauth_clients
              then err other_error w
              else exchange_client B env sha256 now d p
                  (active_client B env sha256 (client_of w p.client_id))
                  w)
          else err (app_error unsupported_grant_type 400) w)
  unfolding exchange_code_for_token
  exchange_answers now d p w = ground arith

  -- Where the exchange of a code returns tokens, the code was issued for the active client that the
  -- request names and for its redirect URI, it had not expired nor been used, the secret is the
  -- client's where the request has one and the PKCE verifier fits where the code has a challenge. It
  -- leaves this code used, the others as they were, and one new session, of the user of the code.
  pub exchange-Exchanged :
      (now : ℕ) (d : Draw) (p : TokenExchangeParams) (w w' : World B)
      (tokens : AuthTokens (Jwt.Token env.jwt)) (c x : ℕ)
      → exchange_code_for_token B env sha256 now d p w ≡ ok tokens w'
      → Exchanged now d p w w' c x
  exchange-Exchanged now d p w w' tokens c x e =
      exchange_client_lem now d p w w' tokens (client_of w p.client_id) c x refl
        (ground (arith, e, exchange_answers now d p w))
