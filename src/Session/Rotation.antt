-- ===== src/Session/Rotation.antt =====
-- The rotation of refresh tokens (backend/src/services/session/session.service.ts).
use zk_auth.Prelude.{
  ℕ, ◌≡◌, ap, refl, ◌∙◌, inl, inr, true, false, Option, none, some, arith, ◌==◌, if◌then◌else◌,
}
use zk_auth.Errors.{app_error, token_revoked}
use zk_auth.Effects.{ok, final, FailsWith, Succeeds, Outcome-cases}
use zk_auth.Stores.{Table, row-updated, updated}
use zk_auth.Schema.{Backends, SessionRow, Device}
use zk_auth.World.{World}
use zk_auth.Tokens.{
  Jwt, Claims, refresh_key, refresh, Verdict, valid, token_expired_error, other_failure,
}
use zk_auth.Session.{Env, Draw, AuthTokens, revoke_row, new_row, rotate_row, rotate_claims, rotate}
use zk_auth.Session.Laws.{session, active, revoked_if, revoke_all-RevokedAll, revoke_all_up}

module _ (B : Backends) (env : Env) where
  -- What a rotation that returned tokens had found and has left of the session `x`.
  pub record Rotated (now : ℕ) (d : Draw) (raw : Jwt.Token env.jwt) (device : Device) (w : World B)
      (c : Claims) (row : SessionRow) (w' : World B) (x : ℕ) : Type 0 where
    pub verified : Jwt.verify env.jwt refresh_key now raw ≡ valid c
    pub typed : c.type ≡ refresh
    pub found : session B w c.sid ≡ some row
    pub unrevoked : row.is_revoked ≡ false
    pub hashed : env.sha256 raw ≡ row.refresh_token_hash
    pub new_id : session B w d.session_id ≡ none
    pub left : session B w' x ≡ (
        if d.session_id == x
        then some (new_row B env now row.user_id device d)
        else if c.sid == x
        then some (revoke_row row)
        else session B w x)

  rotate_row_lem :
      (now : ℕ) (d : Draw) (raw : Jwt.Token env.jwt) (device : Device) (c : Claims) (w w' : World B)
      (tokens : AuthTokens (Jwt.Token env.jwt)) (x : ℕ)
      → Jwt.verify env.jwt refresh_key now raw ≡ valid c
      → c.type ≡ refresh
      → (o : Option SessionRow) → session B w c.sid ≡ o
      → rotate_row B env now d raw device c o w ≡ ok tokens w'
      → (row : SessionRow) × Rotated now d raw device w c row w' x
  unfolding rotate_row
  rotate_row_lem now d raw device c w w' tokens x v t none s e = cc
  rotate_row_lem now d raw device c w w' tokens x v t (some row) s e =
      let old = updated B.session_rows c.sid revoke_row w.session_rows in
      let new = new_row B env now row.user_id device d in
      let clash = Table.clash_sound B.session_rows old d.session_id new in
      let at_new = row-updated B.session_rows c.sid revoke_row w.session_rows d.session_id in
      let at_x = row-updated B.session_rows c.sid revoke_row w.session_rows x in
      let written = Table.row-write B.session_rows d.session_id new old x in
      (
        row,
        record {
          verified = v;
          typed = t;
          found = s;
          unrevoked = ground arith;
          hashed = ground arith;
          new_id = ground (arith, clash);
          left = ground arith;
        },
      )

  rotate_claims_lem :
      (now : ℕ) (d : Draw) (raw : Jwt.Token env.jwt) (device : Device) (w w' : World B)
      (tokens : AuthTokens (Jwt.Token env.jwt)) (x : ℕ) (v : Verdict)
      → Jwt.verify env.jwt refresh_key now raw ≡ v
      → rotate_claims B env now d raw device v w ≡ ok tokens w'
      → (c : Claims) × (row : SessionRow) × Rotated now d raw device w c row w' x
  unfolding rotate_claims
  rotate_claims_lem now d raw device w w' tokens x (valid c) s e =
      let run : rotate_row B env now d raw device c (session B w c.sid) w ≡ ok tokens w' =
        ground arith in
      let typed : c.type ≡ refresh = ground arith in
      let (row, r) =
        rotate_row_lem now d raw device c w w' tokens x s typed (session B w c.sid) refl run in
      (c, row, r)
  rotate_claims_lem now d raw device w w' tokens x token_expired_error s e = cc
  rotate_claims_lem now d raw device w w' tokens x other_failure s e = cc

  -- A rotation that returns tokens was given a refresh token with a good signature, whose session has
  -- a row that was not revoked and holds the hash of the token. It revokes that session, adds a new
  -- one of the same user under an identifier that was free, and changes no other.
  pub rotate-Rotated :
      (now : ℕ) (d : Draw) (raw : Jwt.Token env.jwt) (device : Device) (w w' : World B)
      (tokens : AuthTokens (Jwt.Token env.jwt)) (x : ℕ)
      → rotate B env now d raw device w ≡ ok tokens w'
      → (c : Claims) × (row : SessionRow) × Rotated now d raw device w c row w' x
  unfolding rotate
  rotate-Rotated now d raw device w w' tokens x e =
      rotate_claims_lem now d raw device w w' tokens x (Jwt.verify env.jwt refresh_key now raw) refl
        e

  -- A refresh token of a revoked session is never exchanged: TOKEN_REVOKED is thrown and every active
  -- session of the session's user is revoked, with no other session changed, if PostgreSQL answers.
  pub rotate_revoked :
      (now : ℕ) (d : Draw) (raw : Jwt.Token env.jwt) (device : Device) (w : World B) (c : Claims)
      (row : SessionRow) (x : ℕ)
      → Jwt.verify env.jwt refresh_key now raw ≡ valid c
      → c.type ≡ refresh
      → session B w c.sid ≡ some row
      → row.is_revoked ≡ true
      → Table.down B.session_rows w.session_rows ≡ false
      → FailsWith (app_error token_revoked 401) (rotate B env now d raw device w)
        × (session B (final (rotate B env now d raw device w)) x
            ≡ revoked_if B (active B row.user_id (session B w x)) (session B w x))
  unfolding rotate
  rotate_revoked now d raw device w c row x v t s r up =
      ground (
        arith,
        revoke_all_up B env row.user_id w up,
        revoke_all-RevokedAll B env row.user_id w now x,
      )

  retired_row :
      (now : ℕ) (d : Draw) (raw : Jwt.Token env.jwt) (device : Device) (w w' : World B) (c : Claims)
      (row : SessionRow) (x : ℕ)
      → Rotated now d raw device w c row w' x
      → x ≡ c.sid
      → session B w' c.sid ≡ some (revoke_row row)
  retired_row now d raw device w w' c row x r e =
      let found = r.found in
      ground (
        arith,
        r.left,
        r.new_id,
        ap (session B w') e,
        λ (q : d.session_id ≡ c.sid). ap (session B w) q,
      )

  -- After a rotation the session of its token is revoked.
  rotate_retires :
      (now : ℕ) (d : Draw) (raw : Jwt.Token env.jwt) (device : Device) (w w' : World B)
      (tokens : AuthTokens (Jwt.Token env.jwt))
      → rotate B env now d raw device w ≡ ok tokens w'
      → (c : Claims) × (row : SessionRow) × (Jwt.verify env.jwt refresh_key now raw ≡ valid c)
        × (session B w' c.sid ≡ some (revoke_row row))
  rotate_retires now d raw device w w' tokens e =
      let (c, row, r) = rotate-Rotated now d raw device w w' tokens 0 e in
      let (c', row', r') = rotate-Rotated now d raw device w w' tokens c.sid e in
      let same : c ≡ c' = cc (r.verified, r'.verified) in
      (
        c',
        row',
        r'.verified,
        retired_row now d raw device w w' c' row' c.sid r' (ap (λ (q : Claims). q.sid) same),
      )

  -- A refresh token is good for one rotation: in the state after it, the same token is refused, by
  -- whomever, with whatever draw and at whatever time.
  pub rotate_once :
      (now : ℕ) (d : Draw) (raw : Jwt.Token env.jwt) (device : Device) (w w' : World B)
      (tokens : AuthTokens (Jwt.Token env.jwt)) (later : ℕ) (d' : Draw) (device' : Device)
      → rotate B env now d raw device w ≡ ok tokens w'
      → ¬ Succeeds (rotate B env later d' raw device' w')
  rotate_once now d raw device w w' tokens later d' device' e =
      let (c, row, v, retired) = rotate_retires now d raw device w w' tokens e in
      elim (Outcome-cases (rotate B env later d' raw device' w')) [
        | inr (error, u, e') ↦ rw e' (λ h. h)
        | inl (tokens', u, e') ↦ λ _.
            let (c', row', r) = rotate-Rotated later d' raw device' w' u tokens' 0 e' in
            let same : c ≡ c' =
              Jwt.verify_fixed env.jwt refresh_key now later raw c c' v r.verified in
            let again : session B w' c.sid ≡ some row' =
              ap (λ (q : Claims). session B w' q.sid) same ∙ r.found in
            let revoked : row'.is_revoked ≡ true = cc (again, retired) in cc (revoked, r.unrevoked)
      ]
