-- ===== src/OAuth/Race.antt =====
-- Two exchanges of one code whose transactions overlap (backend/src/services/oauth/oauth.service.ts,
-- `exchangeCodeForToken`). `prisma.$transaction` runs at READ COMMITTED, so both may read the code
-- before either has marked it, and the update of the second waits for the first and is then done.
use zk_auth.Prelude.{ℕ, ◌≡◌, false, some, arith}
use zk_auth.Effects.{ok, final}
use zk_auth.Stores.{Table}
use zk_auth.Schema.{Backends, OAuthCodeRow}
use zk_auth.World.{World}
use zk_auth.Tokens.{Jwt}
use zk_auth.Session.{Env, Draw, AuthTokens, issue, new_row, access_token_of, refresh_token_of}
use zk_auth.Session.Laws.{session}
use zk_auth.Session.Access.{Issued, issue-Issued}
use zk_auth.OAuth.{TokenExchangeParams, no_device, mark_used, read_code, mark_code}
use zk_auth.OAuth.Laws.{code_of, Seen, read-Seen, mark_code_lem}

module _ (B : Backends) (env : Env) (sha256 : ℕ → ℕ) where
  -- The table of sessions answers and takes the row of a new session.
  abbrev pub Takes : ℕ → Draw → ℕ → Table.State B.session_rows → Type 0
  Takes now d user s =
      (Table.down B.session_rows s ≡ false)
      × (Table.clash B.session_rows s d.session_id (new_row B env now user no_device d) ≡ false)

  abbrev pub with_session : ℕ → Draw → ℕ → World B → Table.State B.session_rows
  with_session now d user w =
      Table.write B.session_rows d.session_id (new_row B env now user no_device d) w.session_rows

  abbrev tokens_of : ℕ → Draw → ℕ → AuthTokens (Jwt.Token env.jwt)
  tokens_of now d user = record {
    access_token = access_token_of B env now user d;
    refresh_token = refresh_token_of B env now user d;
    expires_in = env.access_ttl_s;
    session_id = d.session_id;
  }

  marked_lem :
      (code : ℕ) (w : World B) (row : OAuthCodeRow)
      → Table.down B.oauth_codes w.oauth_codes ≡ false
      → code_of B env sha256 w code ≡ some row
      → (mark_code B env sha256 code w ≡ ok tt (final (mark_code B env sha256 code w)))
        × ((final (mark_code B env sha256 code w)).session_rows ≡ w.session_rows)
  unfolding mark_code
  marked_lem code w row up found = (ground arith, ground arith)

  issued_lem :
      (now : ℕ) (d : Draw) (user : ℕ) (w : World B)
      → Takes now d user w.session_rows
      → (issue B env now d user no_device w
          ≡ ok (tokens_of now d user) (final (issue B env now d user no_device w)))
        × ((final (issue B env now d user no_device w)).session_rows ≡ with_session now d user w)
  unfolding issue
  issued_lem now d user w (up, free) = (ground arith, ground arith)

  -- The rest of both requests, after the first has marked the code: the second marks it too, and
  -- then each issues its session.
  pub record BothRedeemed (now later : ℕ) (d d2 : Draw) (user user2 code : ℕ) (w3 : World B)
      : Type 0 where
    pub marked : World B
    pub first : World B
    pub second : World B
    pub marks : mark_code B env sha256 code w3 ≡ ok tt marked
    pub tokens : AuthTokens (Jwt.Token env.jwt)
    pub tokens2 : AuthTokens (Jwt.Token env.jwt)
    pub issues : issue B env now d user no_device marked ≡ ok tokens first
    pub issues2 : issue B env later d2 user2 no_device first ≡ ok tokens2 second
    pub held : session B second d.session_id ≡ some (new_row B env now user no_device d)
    pub held2 : session B second d2.session_id ≡ some (new_row B env later user2 no_device d2)

  -- Where two requests both read the same unused code before the first of them marks it, the second
  -- marks it too and both get tokens: while the database answers and takes the rows of the two
  -- sessions, each request issues its own, and in the end both sessions are there.
  pub double_redemption :
      (now later client : ℕ) (d d2 : Draw) (p q : TokenExchangeParams) (w w1 w2 w3 : World B)
      (row row2 : OAuthCodeRow)
      → read_code B env sha256 now client p w ≡ ok row w1
      → read_code B env sha256 later client q w1 ≡ ok row2 w2
      → q.code ≡ p.code
      → mark_code B env sha256 p.code w2 ≡ ok tt w3
      → Table.down B.oauth_codes w3.oauth_codes ≡ false
      → Takes now d row.user_id w3.session_rows
      → Takes later d2 row2.user_id (with_session now d row.user_id w3)
      → BothRedeemed now later d d2 row.user_id row2.user_id q.code w3
  double_redemption now later client d d2 p q w w1 w2 w3 row row2 r1 r2 same m up takes takes2 =
      let seen : Seen B env sha256 later client q w1 (ok row2 w2) =
        rw r2 at (read-Seen B env sha256 later client q w1) in
      let (codes, _) = mark_code_lem B env sha256 p.code w2 w3 q.code 0 m in
      let (marks, rows) =
        marked_lem q.code w3 (mark_used row2) up (ground (arith, codes, seen, same)) in
      let w4 : World B = final (mark_code B env sha256 q.code w3) in
      let (issues, rows5) = issued_lem now d row.user_id w4 (rw rows takes) in
      let w5 : World B = final (issue B env now d row.user_id no_device w4) in
      let (issues2, rows6) = issued_lem later d2 row2.user_id w5 (rw (rows5, rows) takes2) in
      let w6 : World B = final (issue B env later d2 row2.user_id no_device w5) in
      let there : Issued B env now d row.user_id no_device w4 0 d.session_id
          (ok (tokens_of now d row.user_id) w5) =
        rw issues at (issue-Issued B env now d row.user_id no_device w4 0 d.session_id) in
      let kept : Issued B env later d2 row2.user_id no_device w5 0 d.session_id
          (ok (tokens_of later d2 row2.user_id) w6) =
        rw issues2 at (issue-Issued B env later d2 row2.user_id no_device w5 0 d.session_id) in
      let there2 : Issued B env later d2 row2.user_id no_device w5 0 d2.session_id
          (ok (tokens_of later d2 row2.user_id) w6) =
        rw issues2 at (issue-Issued B env later d2 row2.user_id no_device w5 0 d2.session_id) in
      record {
        marked = w4;
        first = w5;
        second = w6;
        marks = marks;
        tokens = tokens_of now d row.user_id;
        tokens2 = tokens_of later d2 row2.user_id;
        issues = issues;
        issues2 = issues2;
        held = ground (arith, there, kept);
        held2 = ground (arith, there2);
      }
