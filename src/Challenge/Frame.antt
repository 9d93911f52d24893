-- ===== src/Challenge/Frame.antt =====
-- Which stores the challenge service leaves alone
-- (backend/src/services/zkp/challenge.service.ts).
use zk_auth.Prelude.{ℕ, ◌≡◌, some, arith}
use zk_auth.Effects.{ok, final}
use zk_auth.Schema.{Backends, ChallengePayload}
use zk_auth.World.{World, SameLogins}
use zk_auth.Challenge.{fetch, consume}
use zk_auth.Challenge.Laws.{cached}

module _ (B : Backends) where
  pub fetched :
      (t id : ℕ) (w w' : World B) (payload : ChallengePayload)
      → fetch B t id w ≡ ok payload w'
      → (w' ≡ w) × (cached B w t id ≡ some payload)
  unfolding fetch
  fetched t id w w' payload e = (ground (arith, e), ground (arith, e))

  pub fetch_same : (t id : ℕ) (w : World B) → final (fetch B t id w) ≡ w
  unfolding fetch
  fetch_same t id w = ground arith

  pub consume_logins : (now id : ℕ) (w : World B) → SameLogins w (final (consume B now id w))
  unfolding consume
  consume_logins now id w = (ground arith, ground arith, ground arith, ground arith)

  pub consume_nullifiers :
      (now id : ℕ) (w : World B)
      → ((final (consume B now id w)).nullifiers ≡ w.nullifiers)
        × ((final (consume B now id w)).nullifier_rows ≡ w.nullifier_rows)
  unfolding consume
  consume_nullifiers now id w = (ground arith, ground arith)
