-- ===== src/Recovery/Replace.antt =====
-- What the transaction of a recovery does (backend/src/services/auth/recovery.service.ts,
-- `executeRecovery`, step 5).
use zk_auth.Prelude.{
  ℕ, ◌≡◌, Bool, true, false, Option, none, some, arith, ◌==◌, if◌then◌else◌, is_some,
}
use zk_auth.Errors.{Error, other_error}
use zk_auth.Effects.{Outcome, ok, err}
use zk_auth.Stores.{Table, Keyspace, live-remove_all, row-updated, mapped}
use zk_auth.Schema.{Backends, RecoveryCodeRow, SessionRow, UserRow}
use zk_auth.World.{World, transaction, transaction-split, rolled_back}
use zk_auth.Session.{is_active_of, revoke_row}
use zk_auth.Session.Laws.{session, cached, active, revoked_if}
use zk_auth.Recovery.{
  RecoveryEnv, is_burnt_by, burn, is_session_of, replace_key, burn_recovery_code, clear_caches,
  replace_account,
}
use zk_auth.Recovery.Codes.{code}

module _ (B : Backends) where
  abbrev pub user_row : World B → ℕ → Option UserRow
  user_row w id = Table.row B.user_rows w.user_rows id

  -- Whether the row is an open code of the user with this hash.
  abbrev pub matching : ℕ → ℕ → Option RecoveryCodeRow → Bool
  matching user h none = false
  matching user h (some row) = is_burnt_by user h 0 row

  abbrev pub burnt_if : ℕ → Bool → Option RecoveryCodeRow → Option RecoveryCodeRow
  burnt_if now b none = none
  burnt_if now b (some row) = some (if b then burn now row else row)

  abbrev pub owns : ℕ → Option SessionRow → Bool
  owns user none = false
  owns user (some row) = row.user_id == user

  -- What the replacement of the account `user` does to the code, the session and the user `x`.
  pub record Replaced (now user h commitment key : ℕ) (w w' : World B) (t x : ℕ) : Type 0 where
    pub exists : is_some (user_row w user) ≡ true
    pub burns : code B w' x ≡ burnt_if now (matching user h (code B w x)) (code B w x)
    pub revokes : session B w' x ≡ revoked_if B (owns user (session B w x)) (session B w x)
    pub clears : cached B w' t x ≡ (
        if active B user (session B w x)
        then (if Keyspace.down B.session_cache w.session_cache then cached B w t x else none)
        else cached B w t x)
    pub replaces : user_row w' x ≡ (
        if user == x
        then mapped B.user_rows (replace_key commitment key) (user_row w user)
        else user_row w x)

  abbrev pub Replacing : ℕ → ℕ → ℕ → ℕ → ℕ → World B → ℕ → ℕ → Outcome (World B) (Unit {0}) → Type 0
  Replacing now user h commitment key w t x (ok _ w') = Replaced now user h commitment key w w' t x
  Replacing now user h commitment key w t x (err e w') = (w' ≡ w) × (e ≡ other_error)

module _ (B : Backends) (env : RecoveryEnv) where
  Replaced-ok :
      (now user h commitment key : ℕ) (w v : World B) (t x : ℕ)
      → replace_account B env now user h commitment key w ≡ ok tt v
      → Replaced B now user h commitment key w v t x
  unfolding replace_account burn_recovery_code clear_caches
  Replaced-ok now user h commitment key w v t x e =
      let ids = Table.find_keys B.session_rows (is_active_of user) w.session_rows in
      record {
        exists = ground (arith, e);
        burns = ground (
          arith,
          e,
          Table.row-write_all B.recovery_codes (is_burnt_by user h) (burn now) w.recovery_codes x,
        );
        revokes = ground (
          arith,
          e,
          Table.row-write_all B.session_rows (is_session_of user) revoke_row w.session_rows x,
        );
        clears = ground (
          arith,
          e,
          live-remove_all B.session_cache ids w.session_cache t x,
          Table.mem-find_keys B.session_rows (is_active_of user) w.session_rows x,
        );
        replaces =
            ground
              (arith, e, row-updated B.user_rows user (replace_key commitment key) w.user_rows x);
      }

  Replacing-err :
      (now user h commitment key : ℕ) (w v : World B) (y : Error)
      → replace_account B env now user h commitment key w ≡ err y v
      → (rolled_back w v ≡ w) × (y ≡ other_error)
  unfolding replace_account burn_recovery_code clear_caches
  Replacing-err now user h commitment key w v y e = (ground (arith, e), ground (arith, e))

  pub replace-Replacing :
      (now user h commitment key : ℕ) (w : World B) (t x : ℕ)
      → Replacing B now user h commitment key w t x
          (transaction (replace_account B env now user h commitment key) w)
  replace-Replacing now user h commitment key w t x =
      transaction-split (Replacing B now user h commitment key w t x)
        (replace_account B env now user h commitment key) w
        (λ _ v e. Replaced-ok now user h commitment key w v t x e)
        (λ y v e. Replacing-err now user h commitment key w v y e)
