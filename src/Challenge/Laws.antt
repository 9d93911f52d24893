-- ===== src/Challenge/Laws.antt =====
-- The life of a challenge (backend/src/services/zkp/challenge.service.ts).
use zk_auth.Prelude.{
  ℕ, ◌+◌, ◌*◌, ◌≡◌, ◌≢◌, ◌⊎◌, true, false, Option, none, some, arith, ◌==◌, ltb, if◌then◌else◌,
}
use zk_auth.Errors.{app_error, internal_error, other_error, challenge_expired, replay}
use zk_auth.Effects.{Outcome, ok, err, Succeeds}
use zk_auth.Stores.{Table, Keyspace, row-updated, mapped}
use zk_auth.Schema.{Backends, ChallengePayload, ChallengeRow, pending}
use zk_auth.World.{World}
use zk_auth.Challenge.{ChallengeRecord, missing_error, mark_consumed, issue, fetch, consume}

module _ (B : Backends) where
  abbrev pub cached : World B → ℕ → ℕ → Option ChallengePayload
  cached w t id = Keyspace.live B.challenges w.challenges t id

  abbrev pub recorded : World B → ℕ → Option ChallengeRow
  recorded w id = Table.row B.challenge_rows w.challenge_rows id

  abbrev pub issued : ℕ → Option ℕ → ℕ → ChallengePayload
  issued nonce user now = record { nonce = nonce; user_id = user; created_at = now }

  abbrev pub issued_row : ℕ → ℕ → ℕ → Option ℕ → ChallengeRow
  issued_row ttl now nonce user = record {
    user_id = user;
    nonce = nonce;
    status = pending;
    expires_at = now + ttl * 1000;
    consumed_at = none;
  }

  -- What `issue` does for a challenge `x` at a time `t`, on each way it can end.
  abbrev pub ChallengeIssued :
      ℕ → ℕ → ℕ → ℕ → Option ℕ → World B → ℕ → ℕ → Outcome (World B) ChallengeRecord → Type 0
  ChallengeIssued ttl now id nonce user w t x (ok c w') =
      (c ≡ record { challenge_id = id; nonce = nonce; expires_at = now + ttl * 1000 })
      × (cached w now id ≡ none)
      × (cached w' t x ≡ (
          if id == x
          then (if ltb t (now + ttl * 1000) then some (issued nonce user now) else none)
          else cached w t x))
      × (recorded w' x ≡ (if id == x then some (issued_row ttl now nonce user) else recorded w x))
  ChallengeIssued ttl now id nonce user w t x (err e w') =
      ((e ≡ app_error internal_error 500) ⊎ (e ≡ other_error))
      × (recorded w' x ≡ recorded w x)
      × ((cached w' t x ≡ cached w t x)
          ⊎ ((id ≡ x) × (cached w now id ≡ none) × (cached w' t x ≡ none))
          ⊎ ((id ≡ x) × (Keyspace.down B.challenges w'.challenges ≡ true)))

  -- A challenge that is issued was in Redis under no identifier of its own, is live there for the TTL
  -- with its nonce and user, and has a PENDING row; no other challenge changes. A failing `issue`
  -- changes no row, and leaves no challenge in Redis that was not there before, unless Redis is down
  -- for the clean-up.
  pub issue-ChallengeIssued :
      (ttl now id nonce : ℕ) (user : Option ℕ) (w : World B) (t x : ℕ)
      → ChallengeIssued ttl now id nonce user w t x (issue B ttl now id nonce user w)
  unfolding issue
  issue-ChallengeIssued ttl now id nonce user w t x = ground (
    arith,
    Keyspace.live-put_ex B.challenges now id (issued nonce user now) ttl w.challenges t x,
    Keyspace.live-remove B.challenges id
        (Keyspace.put_ex B.challenges now id (issued nonce user now) ttl w.challenges) t x,
    Table.row-write B.challenge_rows id (issued_row ttl now nonce user) w.challenge_rows x,
  )

  -- What `fetch` answers while Redis answers: the payload of a live challenge, and otherwise a
  -- failure that depends on the row alone.
  pub fetch_lem :
      (t id : ℕ) (w : World B)
      → Keyspace.down B.challenges w.challenges ≡ false
      → Table.down B.challenge_rows w.challenge_rows ≡ false
      → fetch B t id w ≡ elim (cached w t id) [
        | some payload ↦ ok payload w
        | none ↦ err (missing_error (recorded w id)) w
      ]
  unfolding fetch
  fetch_lem t id w up pg = ground arith

  -- A challenge that was issued is fetched with its nonce and user until its TTL has passed, and from
  -- then on refused as expired, if the stores answer.
  pub fetch-issue :
      (ttl now id nonce t : ℕ) (user : Option ℕ) (c : ChallengeRecord) (w w' : World B)
      → issue B ttl now id nonce user w ≡ ok c w'
      → Keyspace.down B.challenges w'.challenges ≡ false
      → Table.down B.challenge_rows w'.challenge_rows ≡ false
      → fetch B t id w' ≡ (
          if ltb t c.expires_at
          then ok (issued nonce user now) w'
          else err (app_error challenge_expired 400) w')
  fetch-issue ttl now id nonce t user c w w' e up pg =
      let facts = issue-ChallengeIssued ttl now id nonce user w t id in
      let known : ChallengeIssued ttl now id nonce user w t id (ok c w') = rw e at facts in
      ground (arith, known, fetch_lem t id w' up pg)

  -- What `consume` does for a challenge `x` at a time `t`.
  abbrev pub Consumed : ℕ → ℕ → World B → ℕ → ℕ → Outcome (World B) (Unit {0}) → Type 0
  Consumed now id w t x (ok _ w') =
      (cached w now id ≢ none)
      × (cached w' t x ≡ (if id == x then none else cached w t x))
      × ((recorded w' x ≡ recorded w x)
          ⊎ ((id ≡ x)
              × (recorded w' x ≡ mapped B.challenge_rows (mark_consumed now) (recorded w x))))
  Consumed now id w t x (err e w') =
      (((e ≡ replay) × (cached w now id ≡ none)) ⊎ (e ≡ other_error))
      × (recorded w' x ≡ recorded w x)

  -- `consume` succeeds only on a challenge that is live, takes it out of Redis for good, and marks its
  -- row consumed or, if PostgreSQL fails, leaves it; no other challenge changes. It fails as a replay
  -- on a challenge that is not live, and changes no row then.
  pub consume-Consumed :
      (now id : ℕ) (w : World B) (t x : ℕ) → Consumed now id w t x (consume B now id w)
  unfolding consume
  consume-Consumed now id w t x = ground (
    arith,
    Keyspace.live-remove B.challenges id w.challenges t x,
    row-updated B.challenge_rows id (mark_consumed now) w.challenge_rows x,
  )

  pub fetch_missing : (t id : ℕ) (w : World B) → cached w t id ≡ none → ¬ Succeeds (fetch B t id w)
  unfolding fetch
  fetch_missing t id w h = ground arith

  pub consume_missing :
      (t id : ℕ) (w : World B) → cached w t id ≡ none → ¬ Succeeds (consume B t id w)
  unfolding consume
  consume_missing t id w h = ground arith
