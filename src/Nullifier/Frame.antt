-- ===== src/Nullifier/Frame.antt =====
-- Which stores the nullifier service leaves alone
-- (backend/src/services/zkp/nullifier.service.ts).
use zk_auth.Prelude.{ℕ, ◌≡◌, Bool, arith}
use zk_auth.Effects.{ok, final}
use zk_auth.Stores.{Keyspace}
use zk_auth.Schema.{Backends}
use zk_auth.World.{World, SameLogins}
use zk_auth.Nullifier.{Registration, exists, two_phase_register, register}
use zk_auth.Nullifier.Laws.{spent}

module _ (B : Backends) where
  abbrev locked : ℕ → ℕ → Registration → World B → World B
  locked ttl now r w = record w {
    nullifier_locks =
        Keyspace.put_ex B.nullifier_locks now r.nullifier_hash tt ttl w.nullifier_locks;
  }

  pub existed :
      (hash : ℕ) (w w' : World B) (b : Bool)
      → exists B hash w ≡ ok b w'
      → (w' ≡ w) × (spent B w hash ≡ b)
  unfolding exists
  existed hash w w' b e = (ground (arith, e), ground (arith, e))

  pub exists_same : (hash : ℕ) (w : World B) → final (exists B hash w) ≡ w
  unfolding exists
  exists_same hash w = ground arith

  two_phase_logins :
      (now : ℕ) (r : Registration) (w : World B)
      → SameLogins w (final (two_phase_register B now r w))
  unfolding two_phase_register
  two_phase_logins now r w = (ground arith, ground arith, ground arith, ground arith)

  pub register_logins :
      (ttl now : ℕ) (r : Registration) (w : World B) → SameLogins w (final (register B ttl now r w))
  unfolding register
  register_logins ttl now r w =
      let same = two_phase_logins now r (locked ttl now r w) in
      (ground (arith, same), ground (arith, same), ground (arith, same), ground (arith, same))

  two_phase_challenges :
      (now : ℕ) (r : Registration) (w : World B)
      → (final (two_phase_register B now r w)).challenges ≡ w.challenges
  unfolding two_phase_register
  two_phase_challenges now r w = ground arith

  pub register_challenges :
      (ttl now : ℕ) (r : Registration) (w : World B)
      → (final (register B ttl now r w)).challenges ≡ w.challenges
  unfolding register
  register_challenges ttl now r w = ground (arith, two_phase_challenges now r (locked ttl now r w))
