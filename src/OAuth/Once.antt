-- ===== src/OAuth/Once.antt =====
-- An authorization code after its exchange, over any later use of the service
-- (backend/src/services/oauth/oauth.service.ts).
use zk_auth.Prelude.{
  ℕ, ◌≡◌, Bool, true, false, Option, none, some, List, [], ◌∷◌, arith, Bool-cases, inl, inr,
  Option-cases,
}
use zk_auth.Effects.{Outcome, ok, final, Succeeds, not-Succeeds, >>=-split}
use zk_auth.Stores.{Table, row-updated}
use zk_auth.Schema.{Backends, OAuthClientRow, OAuthCodeRow}
use zk_auth.World.{World}
use zk_auth.Tokens.{Jwt}
use zk_auth.Session.{Env, Draw, AuthTokens, issue, revoke_all_for_user}
use zk_auth.OAuth.{
  TokenExchangeParams, ValidatedAuthorizeRequest, is_code_grant, is_redeemable, no_device,
  mark_used, active_client, secret_matches, check_code, read_code, mark_code, redeem,
  exchange_client, exchange_code_for_token, code_row, issue_authorization_code,
}
use zk_auth.OAuth.Laws.{
  code_of, refuse_reused_lem, read_answers, issue_codes, client_of, exchange_answers,
  exchange-Exchanged,
}

-- A call of the service, with its time and what it draws.
pub data Call : Type 0 where
  exchanges : ℕ → Draw → TokenExchangeParams → Call
  issues : ℕ → ℕ → ValidatedAuthorizeRequest → ℕ → ℕ → Call

module _ (B : Backends) (env : Env) (sha256 : ℕ → ℕ) where
  -- One call after the other, whether it returns or throws.
  abbrev pub run_calls : List Call → World B → World B
  run_calls [] w = w
  run_calls (exchanges now d p ∷ rest) w =
      run_calls rest (final (exchange_code_for_token B env sha256 now d p w))
  run_calls (issues now code v user nullifier ∷ rest) w =
      run_calls rest (final (issue_authorization_code B env sha256 now code v user nullifier w))

  abbrev used_of : Option OAuthCodeRow → Bool
  used_of none = false
  used_of (some row) = row.is_used

  -- The code is there, and used.
  abbrev IsUsed : ℕ → World B → Type 0
  IsUsed c w = used_of (code_of B env sha256 w c) ≡ true

  abbrev StaysUsed : {A : Type 0} → ℕ → Outcome (World B) A → Type 0
  StaysUsed c r = IsUsed c (final r)

  same_codes : (c : ℕ) (w w' : World B) → w'.oauth_codes ≡ w.oauth_codes → IsUsed c w → IsUsed c w'
  same_codes c w w' same u = ground (arith, same, u)

  revoke_codes :
      (user : ℕ) (w : World B)
      → (final (revoke_all_for_user B env user w)).oauth_codes ≡ w.oauth_codes
  unfolding revoke_all_for_user
  revoke_codes user w = ground arith

  check_stays :
      (now client : ℕ) (p : TokenExchangeParams) (row : Option OAuthCodeRow) (c : ℕ) (w : World B)
      → IsUsed c w
      → StaysUsed c (check_code B env sha256 now client p row w)
  unfolding check_code
  check_stays now client p none c w u = u
  check_stays now client p (some row) c w u = elim (Bool-cases row.is_used) [
    | inl used ↦
        simp (used, refuse_reused_lem B env sha256 row.user_id w)
          (same_codes c w (final (revoke_all_for_user B env row.user_id w))
            (revoke_codes row.user_id w) u)
    | inr fresh ↦ elim (Bool-cases (is_redeemable B env sha256 now client p row)) [
      | inl r ↦ simp (fresh, r) u
      | inr r ↦ simp (fresh, r) u
    ]
  ]

  read_stays :
      (now client : ℕ) (p : TokenExchangeParams) (c : ℕ) (w : World B)
      → IsUsed c w
      → StaysUsed c (read_code B env sha256 now client p w)
  read_stays now client p c w u =
      rw (read_answers B env sha256 now client p w)
        (elim (Bool-cases (Table.down B.oauth_codes w.oauth_codes)) [
          | inl down ↦ rw down u
          | inr up ↦ rw up (check_stays now client p (code_of B env sha256 w p.code) c w u)
        ])

  mark_stays : (code c : ℕ) (w : World B) → IsUsed c w → StaysUsed c (mark_code B env sha256 code w)
  unfolding mark_code
  mark_stays code c w u = elim (Option-cases (code_of B env sha256 w code)) [
    | inl e ↦ ground (arith, u, e)
    | inr (row, e) ↦ ground (arith, u, e, row-updated B.oauth_codes code mark_used w.oauth_codes c)
  ]

  redeem_stays :
      (now : ℕ) (d : Draw) (client : ℕ) (p : TokenExchangeParams) (c : ℕ) (w : World B)
      → IsUsed c w
      → StaysUsed c (redeem B env sha256 now d client p w)
  unfolding redeem
  redeem_stays now d client p c w u =
      let read = read_stays now client p c w u in
      >>=-split (StaysUsed c) (read_code B env sha256 now client p) _ w
        (λ row v e.
          let left : IsUsed c v = rw e at read in
          let marked = mark_stays p.code c v left in
          >>=-split (StaysUsed c) (mark_code B env sha256 p.code) _ v
            (λ _ v2 e2.
              same_codes c v2 (final (issue B env now d row.user_id no_device v2))
                (issue_codes B env sha256 now d row.user_id v2) (rw e2 at marked))
            (λ x v2 e2. rw e2 at marked))
        (λ x v e. rw e at read)

  client_stays :
      (now : ℕ) (d : Draw) (p : TokenExchangeParams) (client : Option (ℕ × OAuthClientRow)) (c : ℕ)
      (w : World B)
      → IsUsed c w
      → StaysUsed c (exchange_client B env sha256 now d p client w)
  unfolding exchange_client
  client_stays now d p none c w u = u
  client_stays now d p (some (id, client)) c w u =
      elim (Bool-cases (secret_matches B env sha256 p.client_secret client.client_secret_hash)) [
        | inl k ↦ rw k (redeem_stays now d id p c w u)
        | inr k ↦ rw k u
      ]

  exchange_stays :
      (now : ℕ) (d : Draw) (p : TokenExchangeParams) (c : ℕ) (w : World B)
      → IsUsed c w
      → StaysUsed c (exchange_code_for_token B env sha256 now d p w)
  exchange_stays now d p c w u =
      let client = active_client B env sha256 (client_of B env sha256 w p.client_id) in
      rw (exchange_answers B env sha256 now d p w) (elim (Bool-cases (is_code_grant p.grant_type)) [
        | inr other ↦ rw other u
        | inl grant ↦ elim (Bool-cases (Table.down B.oauth_clients w.oauth_clients)) [
          | inl down ↦ rw (grant, down) u
          | inr up ↦ rw (grant, up) (client_stays now d p client c w u)
        ]
      ])

  issue_stays :
      (now code : ℕ) (v : ValidatedAuthorizeRequest) (user nullifier c : ℕ) (w : World B)
      → IsUsed c w
      → StaysUsed c (issue_authorization_code B env sha256 now code v user nullifier w)
  unfolding issue_authorization_code
  issue_stays now code v user nullifier c w u =
      let row = code_row B env sha256 now v user nullifier in
      ground (
        arith,
        u,
        Table.clash_sound B.oauth_codes w.oauth_codes code row,
        Table.row-write B.oauth_codes code row w.oauth_codes c,
      )

  run_stays : (calls : List Call) (c : ℕ) (w : World B) → IsUsed c w → IsUsed c (run_calls calls w)
  run_stays [] c w u = u
  run_stays (exchanges now d p ∷ rest) c w u = run_stays rest c _ (exchange_stays now d p c w u)
  run_stays (issues now code v user nullifier ∷ rest) c w u =
      run_stays rest c _ (issue_stays now code v user nullifier c w u)

  -- A code that was exchanged is not exchanged again: after any run of later calls that issue and
  -- exchange codes, one after the other and each returning or throwing, no request with the code
  -- returns tokens. Requests that overlap with the first exchange are not covered.
  pub exchange_once :
      (now later : ℕ) (d d2 : Draw) (p q : TokenExchangeParams) (calls : List Call) (w w' : World B)
      (tokens : AuthTokens (Jwt.Token env.jwt))
      → exchange_code_for_token B env sha256 now d p w ≡ ok tokens w'
      → q.code ≡ p.code
      → ¬ Succeeds (exchange_code_for_token B env sha256 later d2 q (run_calls calls w'))
  exchange_once now later d d2 p q calls w w' tokens e same = not-Succeeds _ λ tokens2 w2 h.
      let first = exchange-Exchanged B env sha256 now d p w w' tokens q.code 0 e in
      let used : IsUsed q.code w' = ground (arith, first.codes_left, same) in
      let second =
        exchange-Exchanged B env sha256 later d2 q (run_calls calls w') w2 tokens2 q.code 0 h in
      ground (arith, run_stays calls q.code w' used, second.code_found, second.unused)
