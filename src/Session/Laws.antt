-- ===== src/Session/Laws.antt =====
-- What the operations on sessions leave behind
-- (backend/src/services/session/session.service.ts).
use zk_auth.Prelude.{
  ℕ, ◌≡◌, Bool, false, not, ◌&&◌, Option, none, some, List, [], ◌∷◌, arith, ◌==◌, if◌then◌else◌,
}
use zk_auth.Effects.{Outcome, ok, err, Succeeds}
use zk_auth.Stores.{Table, Keyspace, mem, live-remove_all}
use zk_auth.Schema.{Backends, SessionCacheEntry, SessionRow}
use zk_auth.World.{World}
use zk_auth.Session.{Env, revoke_row, is_active_of, revoke_ids, revoke_all_for_user}

module _ (B : Backends) where
  abbrev pub session : World B → ℕ → Option SessionRow
  session w id = Table.row B.session_rows w.session_rows id

  abbrev pub cached : World B → ℕ → ℕ → Option SessionCacheEntry
  cached w t id = Keyspace.live B.session_cache w.session_cache t id

  -- Whether the row is that of a session of the user which is not revoked.
  abbrev pub active : ℕ → Option SessionRow → Bool
  active user none = false
  active user (some row) = row.user_id == user && not row.is_revoked

  abbrev pub revoked_if : Bool → Option SessionRow → Option SessionRow
  revoked_if b none = none
  revoked_if b (some row) = some (if b then revoke_row row else row)

  -- What `revoke_all_for_user` does to the session `x`.
  abbrev pub RevokedAll : ℕ → World B → ℕ → ℕ → Outcome (World B) ℕ → Type 0
  RevokedAll user w t x (ok count w') =
      (session w' x ≡ revoked_if (active user (session w x)) (session w x))
      × (cached w' t x ≡ (
          if active user (session w x)
          then (if Keyspace.down B.session_cache w.session_cache then cached w t x else none)
          else cached w t x))
  RevokedAll user w t x (err e w') = w' ≡ w

module _ (B : Backends) (env : Env) where
  revoke_ids_lem :
      (ids : List ℕ) (user : ℕ) (w : World B) (t x : ℕ)
      → Table.down B.session_rows w.session_rows ≡ false
      → mem x ids ≡ active B user (session B w x)
      → RevokedAll B user w t x (revoke_ids B env ids w)
  unfolding revoke_ids
  revoke_ids_lem [] user w t x up h = ground arith
  revoke_ids_lem (id ∷ ids) user w t x up h = ground (
    arith,
    Table.row-write_all B.session_rows (λ k _. mem k (id ∷ ids)) revoke_row w.session_rows x,
    live-remove_all B.session_cache (id ∷ ids) w.session_cache t x,
  )

  -- Revoking all sessions of a user revokes exactly the sessions of that user that are not revoked,
  -- and takes exactly these out of the Redis cache, if Redis answers; where it throws it changes
  -- nothing.
  pub revoke_all-RevokedAll :
      (user : ℕ) (w : World B) (t x : ℕ)
      → RevokedAll B user w t x (revoke_all_for_user B env user w)
  unfolding revoke_all_for_user
  revoke_all-RevokedAll user w t x = ground (
    arith,
    revoke_ids_lem (Table.find_keys B.session_rows (is_active_of user) w.session_rows) user w t x,
    Table.mem-find_keys B.session_rows (is_active_of user) w.session_rows x,
  )

  revoke_ids_up :
      (ids : List ℕ) (w : World B)
      → Table.down B.session_rows w.session_rows ≡ false
      → Succeeds (revoke_ids B env ids w)
  unfolding revoke_ids
  revoke_ids_up [] w up = tt
  revoke_ids_up (id ∷ ids) w up = ground arith

  pub revoke_all_up :
      (user : ℕ) (w : World B)
      → Table.down B.session_rows w.session_rows ≡ false
      → Succeeds (revoke_all_for_user B env user w)
  unfolding revoke_all_for_user
  revoke_all_up user w up = ground (
    arith,
    revoke_ids_up (Table.find_keys B.session_rows (is_active_of user) w.session_rows) w up,
  )
