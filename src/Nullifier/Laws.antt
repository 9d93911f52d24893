-- ===== src/Nullifier/Laws.antt =====
-- What a registration leaves behind (backend/src/services/zkp/nullifier.service.ts).
use zk_auth.Prelude.{
  ℕ, ◌≡◌, is_some, ◌⊎◌, Bool, true, false, Option, none, some, arith, ◌==◌, if◌then◌else◌,
}
use zk_auth.Errors.{app_error, internal_error, other_error, replay}
use zk_auth.Effects.{Outcome, ok, err, final, FailsWith}
use zk_auth.Stores.{MemberSet, Table, Keyspace}
use zk_auth.Schema.{Backends, NullifierRow}
use zk_auth.World.{World}
use zk_auth.Nullifier.{Registration, row_of, release_lock, two_phase_register, register}

module _ (B : Backends) where
  -- The membership of a hash in the Redis set, and its row in PostgreSQL.
  abbrev pub spent : World B → ℕ → Bool
  spent w x = MemberSet.has B.nullifiers w.nullifiers x

  abbrev pub durable : World B → ℕ → Option NullifierRow
  durable w x = Table.row B.nullifier_rows w.nullifier_rows x

  -- What the two phases do to a hash `x`, on each way they can end.
  abbrev pub TwoPhase : ℕ → Registration → World B → ℕ → Outcome (World B) (Unit {0}) → Type 0
  TwoPhase now r w x (ok _ w') =
      (spent w r.nullifier_hash ≡ false)
      × (durable w r.nullifier_hash ≡ none)
      × (spent w' x ≡ (if r.nullifier_hash == x then true else spent w x))
      × (durable w' x ≡ (if r.nullifier_hash == x then some (row_of now r) else durable w x))
  TwoPhase now r w x (err e w') =
      ((e ≡ replay) ⊎ (e ≡ app_error internal_error 500) ⊎ (e ≡ other_error))
      × (durable w' x ≡ durable w x)
      × ((spent w' x ≡ spent w x)
          ⊎ ((r.nullifier_hash ≡ x)
              × (MemberSet.down B.nullifiers w'.nullifiers ≡ true)
              × (spent w' x ≡ true)))

  two_phase_register-TwoPhase :
      (now : ℕ) (r : Registration) (w : World B) (x : ℕ)
      → TwoPhase now r w x (two_phase_register B now r w)
  unfolding two_phase_register
  two_phase_register-TwoPhase now r w x = ground (
    arith,
    MemberSet.has-add B.nullifiers r.nullifier_hash w.nullifiers x,
    MemberSet.has-drop B.nullifiers r.nullifier_hash
        (MemberSet.add B.nullifiers r.nullifier_hash w.nullifiers) x,
    Table.row-write B.nullifier_rows r.nullifier_hash (row_of now r) w.nullifier_rows x,
    Table.clash_sound B.nullifier_rows w.nullifier_rows r.nullifier_hash (row_of now r),
  )

  -- For every hash `x` and state of the stores: a registration that succeeds found the hash neither
  -- in the Redis set nor in PostgreSQL, and adds it to both and nothing else; one that fails throws
  -- NULLIFIER_REPLAY, INTERNAL_ERROR or the failure of a Redis command, leaves PostgreSQL unchanged,
  -- and leaves the set unchanged, unless Redis was down for the rollback and the hash stays in the
  -- set.
  pub register-TwoPhase :
      (ttl now : ℕ) (r : Registration) (w : World B) (x : ℕ)
      → TwoPhase now r w x (register B ttl now r w)
  unfolding register
  register-TwoPhase ttl now r w x = ground (
    arith,
    two_phase_register-TwoPhase now r
        (record w {
          nullifier_locks =
              Keyspace.put_ex B.nullifier_locks now r.nullifier_hash tt ttl w.nullifier_locks;
        })
        x,
  )

  -- A hash in the Redis set is refused as a replay whenever Redis answers, with no hash added to the
  -- set or to PostgreSQL.
  pub register-spent :
      (ttl now : ℕ) (r : Registration) (w : World B) (x : ℕ)
      → spent w r.nullifier_hash ≡ true
      → MemberSet.down B.nullifiers w.nullifiers ≡ false
      → Keyspace.down B.nullifier_locks w.nullifier_locks ≡ false
      → FailsWith replay (register B ttl now r w)
        × (durable (final (register B ttl now r w)) x ≡ durable w x)
        × (spent (final (register B ttl now r w)) x ≡ spent w x)
  unfolding register
  register-spent ttl now r w x h up locks_up =
      ground (arith, MemberSet.has-add B.nullifiers r.nullifier_hash w.nullifiers x)

  -- While another request holds the lock of the hash, a registration is refused as a replay and the
  -- stores stay as they are.
  pub register_locked :
      (ttl now : ℕ) (r : Registration) (w : World B)
      → Keyspace.live B.nullifier_locks w.nullifier_locks now r.nullifier_hash ≡ some tt
      → Keyspace.down B.nullifier_locks w.nullifier_locks ≡ false
      → register B ttl now r w ≡ err replay w
  unfolding register
  register_locked ttl now r w h up = ground arith

  -- Both stores agree on whether a hash is spent.
  abbrev pub Agrees : World B → ℕ → Type 0
  Agrees w x = spent w x ≡ is_some (durable w x)

  TwoPhase-Agrees :
      (now : ℕ) (r : Registration) (w : World B) (x : ℕ) (o : Outcome (World B) (Unit {0}))
      → Agrees w x
      → TwoPhase now r w x o
      → Agrees (final o) x ⊎ (MemberSet.down B.nullifiers (final o).nullifiers ≡ true)
  TwoPhase-Agrees now r w x (ok a w') v h = ground arith
  TwoPhase-Agrees now r w x (err e w') v h = ground arith

  -- A registration keeps a hash spent in both stores or in neither, on success and on failure, unless
  -- it ends with Redis down for its rollback.
  pub register-Agrees :
      (ttl now : ℕ) (r : Registration) (w : World B) (x : ℕ)
      → Agrees w x
      → Agrees (final (register B ttl now r w)) x
        ⊎ (MemberSet.down B.nullifiers (final (register B ttl now r w)).nullifiers ≡ true)
  register-Agrees ttl now r w x v = TwoPhase-Agrees now r w x _ v (register-TwoPhase ttl now r w x)

  -- After a registration that took the lock, the lock is free again if Redis answers the DEL.
  pub release_lock_frees :
      (now later : ℕ) (r : Registration) (w : World B)
      → Keyspace.down B.nullifier_locks w.nullifier_locks ≡ false
      → Keyspace.live B.nullifier_locks
          (release_lock B now r w).nullifier_locks
          later
          r.nullifier_hash
        ≡ none
  unfolding release_lock
  release_lock_frees now later r w up = ground (
    arith,
    Keyspace.live-remove B.nullifier_locks r.nullifier_hash w.nullifier_locks later
        r.nullifier_hash,
  )
