-- ===== src/Challenge/Once.antt =====
-- A challenge after its consumption, over any later use of the service
-- (backend/src/services/zkp/challenge.service.ts).
use zk_auth.Prelude.{ℕ, ◌≡◌, ◌≢◌, Option, none, List, [], ◌∷◌, arith}
use zk_auth.Effects.{ok, final, Succeeds}
use zk_auth.Stores.{Keyspace}
use zk_auth.Schema.{Backends}
use zk_auth.World.{World}
use zk_auth.Challenge.{issue, fetch, consume}
use zk_auth.Challenge.Laws.{
  cached, Consumed, consume-Consumed, issued, fetch_missing, consume_missing,
}
use zk_auth.Challenge.Frame.{fetch_same}

-- A call of the service, with its time and what it draws.
pub data Call : Type 0 where
  issues : ℕ → ℕ → ℕ → ℕ → Option ℕ → Call
  fetches consumes : ℕ → ℕ → Call

-- No call draws the identifier.
abbrev pub Undrawn : ℕ → List Call → Type 0
Undrawn id [] = Unit
Undrawn id (issues ttl now x nonce user ∷ rest) = (x ≢ id) × Undrawn id rest
Undrawn id (fetches now x ∷ rest) = Undrawn id rest
Undrawn id (consumes now x ∷ rest) = Undrawn id rest

module _ (B : Backends) where
  -- One call after the other, whether it returns or throws.
  abbrev pub run_calls : List Call → World B → World B
  run_calls [] w = w
  run_calls (issues ttl now x nonce user ∷ rest) w =
      run_calls rest (final (issue B ttl now x nonce user w))
  run_calls (fetches now x ∷ rest) w = run_calls rest (final (fetch B now x w))
  run_calls (consumes now x ∷ rest) w = run_calls rest (final (consume B now x w))

  -- Not in Redis, at any time.
  abbrev Gone : ℕ → World B → Type 0
  Gone id w = (t : ℕ) → cached B w t id ≡ none

  issue-Gone :
      (ttl now x nonce : ℕ) (user : Option ℕ) (id : ℕ) (w : World B)
      → x ≢ id
      → Gone id w
      → Gone id (final (issue B ttl now x nonce user w))
  unfolding issue
  issue-Gone ttl now x nonce user id w other gone t = ground (
    arith,
    other,
    gone t,
    Keyspace.live-put_ex B.challenges now x (issued B nonce user now) ttl w.challenges t id,
    Keyspace.live-remove B.challenges x
        (Keyspace.put_ex B.challenges now x (issued B nonce user now) ttl w.challenges) t id,
  )

  consume-Gone : (now x id : ℕ) (w : World B) → Gone id w → Gone id (final (consume B now x w))
  unfolding consume
  consume-Gone now x id w gone t =
      ground (arith, gone t, Keyspace.live-remove B.challenges x w.challenges t id)

  run-Gone :
      (calls : List Call) (id : ℕ) (w : World B)
      → Undrawn id calls
      → Gone id w
      → Gone id (run_calls calls w)
  run-Gone [] id w u gone = gone
  run-Gone (issues ttl now x nonce user ∷ rest) id w (other, u) gone =
      run-Gone rest id _ u (issue-Gone ttl now x nonce user id w other gone)
  run-Gone (fetches now x ∷ rest) id w u gone =
      run-Gone rest id _ u (rw (fetch_same B now x w) gone)
  run-Gone (consumes now x ∷ rest) id w u gone = run-Gone rest id _ u (consume-Gone now x id w gone)

  -- A challenge that was consumed is never fetched and never consumed again, whether or not
  -- PostgreSQL recorded it: not after any run of later calls that issue, fetch and consume challenges,
  -- each returning or throwing, as long as none of them draws its identifier anew.
  pub consume_once :
      (now id later : ℕ) (calls : List Call) (w w' : World B)
      → consume B now id w ≡ ok tt w'
      → Undrawn id calls
      → (¬ Succeeds (fetch B later id (run_calls calls w')))
        × (¬ Succeeds (consume B later id (run_calls calls w')))
  consume_once now id later calls w w' e u =
      let gone : Gone id w' = λ t.
        let known : Consumed B now id w t id (ok tt w') =
          rw e at (consume-Consumed B now id w t id) in
        ground (arith, known) in
      let left = run-Gone calls id w' u gone later in
      (
        fetch_missing B later id (run_calls calls w') left,
        consume_missing B later id (run_calls calls w') left,
      )
