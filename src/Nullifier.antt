-- ===== src/Nullifier.antt =====
-- The nullifier service of backend/src/services/zkp/nullifier.service.ts. The steps of a
-- registration are definitions of their own, for other requests may come between them.
pub mod Laws
pub mod Frame
mod Examples
pub mod Race
use zk_auth.Prelude.{ℕ, Bool, true, false, none, ◌==◌, if◌then◌else◌}
use zk_auth.Errors.{Error, unique_violation, app_error, internal_error, replay}
use zk_auth.Effects.{M, ◌>>=◌, ◌>>◌, return, throw, try_catch, best_effort, finally, final}
use zk_auth.Stores.{sismember, sadd, srem, create, set_nx_ex, del}
use zk_auth.Schema.{Backends, NullifierRow}
use zk_auth.World.{World, in_nullifier_locks, in_nullifiers, in_nullifier_rows}

pub record Registration : Type 0 where
  pub nullifier_hash : ℕ
  pub user_id : ℕ
  pub challenge_id : ℕ

abbrev pub row_of : ℕ → Registration → NullifierRow
row_of now r = record { user_id = r.user_id; challenge_id = r.challenge_id; recorded_at = now }

-- What the insert's failure is turned into, after the rollback.
abbrev pub insert_error : Error → Error
insert_error unique_violation = replay
insert_error _ = app_error internal_error 500

module _ (B : Backends) where
  -- The fast replay check before a proof is verified.
  unfoldable pub exists : ℕ → M (World B) Bool
  exists hash = do is_member ← in_nullifiers (sismember B.nullifiers hash); return (is_member == 1)

  -- SET lock NX EX: `false` means that another request for this nullifier is in flight.
  pub take_lock : ℕ → ℕ → Registration → M (World B) Bool
  take_lock ttl now r = in_nullifier_locks (set_nx_ex B.nullifier_locks now r.nullifier_hash tt ttl)

  -- The release of the lock, whose failure is only logged.
  pub release_lock : ℕ → Registration → World B → World B
  release_lock now r w = final (in_nullifier_locks (del B.nullifier_locks now r.nullifier_hash) w)

  -- Phase A.
  pub gate : Registration → M (World B) (Unit {0})
  gate r = do
    added ← in_nullifiers (sadd B.nullifiers r.nullifier_hash)
    if added == 0 then throw replay else return tt

  rollback_redis : Registration → M (World B) (Unit {0})
  rollback_redis r =
      best_effort (in_nullifiers (srem B.nullifiers r.nullifier_hash) >>= λ _. return tt)

  -- Phase B, with its rollback.
  pub insert_row : ℕ → Registration → M (World B) (Unit {0})
  unfolding rollback_redis
  insert_row now r =
      try_catch (in_nullifier_rows (create B.nullifier_rows r.nullifier_hash (row_of now r)))
        λ e. do rollback_redis r; throw (insert_error e)

  pub two_phase_register : ℕ → Registration → M (World B) (Unit {0})
  unfolding gate insert_row
  two_phase_register now r = do gate r; insert_row now r

  unfoldable pub register : ℕ → ℕ → Registration → M (World B) (Unit {0})
  unfolding take_lock release_lock two_phase_register
  register ttl now r = do
    lock_acquired ← take_lock ttl now r
    if lock_acquired then finally (two_phase_register now r) (release_lock now r) else throw replay
