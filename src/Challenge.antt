-- ===== src/Challenge.antt =====
-- The challenge service of backend/src/services/zkp/challenge.service.ts. The identifier and the
-- nonce that `issue` draws at random are arguments.
pub mod Laws
pub mod Frame
pub mod Once
mod Examples
use zk_auth.Prelude.{ℕ, ◌+◌, ◌*◌, Option, none, some, ◌==◌, if◌then◌else◌}
use zk_auth.Errors.{Error, app_error, internal_error, challenge_expired, not_found_404, replay}
use zk_auth.Effects.{M, ◌>>=◌, ◌>>◌, return, throw, try_catch, best_effort}
use zk_auth.Stores.{get, set_nx_ex, del, create, update, find_unique}
use zk_auth.Schema.{
  Backends, ChallengePayload, ChallengeRow, ChallengeStatus, pending, consumed, expired,
}
use zk_auth.World.{World, in_challenges, in_challenge_rows}

pub record ChallengeRecord : Type 0 where
  pub challenge_id : ℕ
  pub nonce : ℕ
  pub expires_at : ℕ

-- What a missing Redis key means, by the row in PostgreSQL.
abbrev pub missing_error : Option ChallengeRow → Error
missing_error none = not_found_404
missing_error (some row) = elim row.status [
  | consumed ↦ replay
  | _ ↦ app_error challenge_expired 400
]

abbrev pub mark_consumed : ℕ → ChallengeRow → ChallengeRow
mark_consumed now row = record row { status = consumed; consumed_at = some now }

module _ (B : Backends) where
  -- `ttl` is CHALLENGE_TTL_SECONDS.
  unfoldable pub issue : ℕ → ℕ → ℕ → ℕ → Option ℕ → M (World B) ChallengeRecord
  issue ttl now challenge_id nonce user_id = do
    let expires_at = now + ttl * 1000
    is_set ← in_challenges (
        set_nx_ex B.challenges now challenge_id
          (record { nonce = nonce; user_id = user_id; created_at = now }) ttl)
    if is_set
        then (do
          try_catch
              (in_challenge_rows (
                create B.challenge_rows challenge_id (record {
                  user_id = user_id;
                  nonce = nonce;
                  status = pending;
                  expires_at = expires_at;
                  consumed_at = none;
                })))
              λ _. do
                best_effort (in_challenges (del B.challenges now challenge_id) >>= λ _. return tt)
                throw (app_error internal_error 500)
          return (record { challenge_id = challenge_id; nonce = nonce; expires_at = expires_at }))
        else throw (app_error internal_error 500)

  unfoldable pub fetch : ℕ → ℕ → M (World B) ChallengePayload
  fetch now challenge_id = do
    raw ← in_challenges (get B.challenges now challenge_id)
    elim raw [
      | some payload ↦ return payload
      | none ↦ do
        row ←
            try_catch (in_challenge_rows (find_unique B.challenge_rows challenge_id))
              λ _. return none
        throw (missing_error row)
    ]

  unfoldable pub consume : ℕ → ℕ → M (World B) (Unit {0})
  consume now challenge_id = do
    deleted ← in_challenges (del B.challenges now challenge_id)
    if deleted == 0
        then throw replay
        else best_effort
            (in_challenge_rows (update B.challenge_rows challenge_id (mark_consumed now)))
