-- ===== src/World.antt =====
-- The state of all stores at one moment, and commands on one store as commands on that state.
use zk_auth.Stores.{Keyspace, MemberSet, Table, Journal}
use zk_auth.Errors.{Error}
use zk_auth.Effects.{M, Outcome, ok, err, Outcome-split}
use zk_auth.Prelude.{ℕ, ◌≡◌, List}
use zk_auth.Schema.{Backends, WsMessage}

pub record World (B : Backends) : Type 0 where
  pub challenges : Keyspace.State B.challenges
  pub session_cache : Keyspace.State B.session_cache
  pub step_ups : Keyspace.State B.step_ups
  pub nullifier_locks : Keyspace.State B.nullifier_locks
  pub nullifiers : MemberSet.State B.nullifiers
  pub challenge_rows : Table.State B.challenge_rows
  pub nullifier_rows : Table.State B.nullifier_rows
  pub session_rows : Table.State B.session_rows
  pub user_rows : Table.State B.user_rows
  pub recovery_codes : Table.State B.recovery_codes
  pub oauth_clients : Table.State B.oauth_clients
  pub oauth_codes : Table.State B.oauth_codes
  pub risk_scores : Journal.State B.risk_scores
  -- The messages sent, the newest first, each with the session it went to.
  pub outbox : List (ℕ × WsMessage)

module _ {B : Backends} where
  -- The stores that tell of replays.
  abbrev pub SameReplays : World B → World B → Type 0
  SameReplays w w' =
      (w'.challenges ≡ w.challenges)
      × (w'.nullifiers ≡ w.nullifiers)
      × (w'.nullifier_rows ≡ w.nullifier_rows)

  -- The tables of the users and of what a login yields.
  abbrev pub SameLogins : World B → World B → Type 0
  SameLogins w w' =
      (w'.session_rows ≡ w.session_rows)
      × (w'.oauth_codes ≡ w.oauth_codes)
      × (w'.oauth_clients ≡ w.oauth_clients)
      × (w'.user_rows ≡ w.user_rows)

module _ {B : Backends} {A : Type 0} where
  abbrev pub in_challenges : M (Keyspace.State B.challenges) A → M (World B) A
  in_challenges m w = elim (m w.challenges) [
    | ok a s ↦ ok a (record w { challenges = s })
    | err e s ↦ err e (record w { challenges = s })
  ]

  abbrev pub in_session_cache : M (Keyspace.State B.session_cache) A → M (World B) A
  in_session_cache m w = elim (m w.session_cache) [
    | ok a s ↦ ok a (record w { session_cache = s })
    | err e s ↦ err e (record w { session_cache = s })
  ]

  abbrev pub in_step_ups : M (Keyspace.State B.step_ups) A → M (World B) A
  in_step_ups m w = elim (m w.step_ups) [
    | ok a s ↦ ok a (record w { step_ups = s })
    | err e s ↦ err e (record w { step_ups = s })
  ]

  abbrev pub in_nullifier_locks : M (Keyspace.State B.nullifier_locks) A → M (World B) A
  in_nullifier_locks m w = elim (m w.nullifier_locks) [
    | ok a s ↦ ok a (record w { nullifier_locks = s })
    | err e s ↦ err e (record w { nullifier_locks = s })
  ]

  abbrev pub in_nullifiers : M (MemberSet.State B.nullifiers) A → M (World B) A
  in_nullifiers m w = elim (m w.nullifiers) [
    | ok a s ↦ ok a (record w { nullifiers = s })
    | err e s ↦ err e (record w { nullifiers = s })
  ]

  abbrev pub in_challenge_rows : M (Table.State B.challenge_rows) A → M (World B) A
  in_challenge_rows m w = elim (m w.challenge_rows) [
    | ok a s ↦ ok a (record w { challenge_rows = s })
    | err e s ↦ err e (record w { challenge_rows = s })
  ]

  abbrev pub in_nullifier_rows : M (Table.State B.nullifier_rows) A → M (World B) A
  in_nullifier_rows m w = elim (m w.nullifier_rows) [
    | ok a s ↦ ok a (record w { nullifier_rows = s })
    | err e s ↦ err e (record w { nullifier_rows = s })
  ]

  abbrev pub in_session_rows : M (Table.State B.session_rows) A → M (World B) A
  in_session_rows m w = elim (m w.session_rows) [
    | ok a s ↦ ok a (record w { session_rows = s })
    | err e s ↦ err e (record w { session_rows = s })
  ]

  abbrev pub in_user_rows : M (Table.State B.user_rows) A → M (World B) A
  in_user_rows m w = elim (m w.user_rows) [
    | ok a s ↦ ok a (record w { user_rows = s })
    | err e s ↦ err e (record w { user_rows = s })
  ]

  abbrev pub in_recovery_codes : M (Table.State B.recovery_codes) A → M (World B) A
  in_recovery_codes m w = elim (m w.recovery_codes) [
    | ok a s ↦ ok a (record w { recovery_codes = s })
    | err e s ↦ err e (record w { recovery_codes = s })
  ]

  abbrev pub in_oauth_clients : M (Table.State B.oauth_clients) A → M (World B) A
  in_oauth_clients m w = elim (m w.oauth_clients) [
    | ok a s ↦ ok a (record w { oauth_clients = s })
    | err e s ↦ err e (record w { oauth_clients = s })
  ]

  abbrev pub in_oauth_codes : M (Table.State B.oauth_codes) A → M (World B) A
  in_oauth_codes m w = elim (m w.oauth_codes) [
    | ok a s ↦ ok a (record w { oauth_codes = s })
    | err e s ↦ err e (record w { oauth_codes = s })
  ]

  abbrev pub in_risk_scores : M (Journal.State B.risk_scores) A → M (World B) A
  in_risk_scores m w = elim (m w.risk_scores) [
    | ok a s ↦ ok a (record w { risk_scores = s })
    | err e s ↦ err e (record w { risk_scores = s })
  ]

module _ {B : Backends} where
  -- The tables as they were in the first state, and Redis as it is in the second.
  abbrev pub rolled_back : World B → World B → World B
  rolled_back w w' = record w' {
    challenge_rows = w.challenge_rows;
    nullifier_rows = w.nullifier_rows;
    session_rows = w.session_rows;
    user_rows = w.user_rows;
    recovery_codes = w.recovery_codes;
    oauth_clients = w.oauth_clients;
    oauth_codes = w.oauth_codes;
  }

  -- `prisma.$transaction`: where it throws, the tables are as they were before; Redis is not.
  abbrev pub transaction : {A : Type 0} → M (World B) A → M (World B) A
  transaction m w = elim (m w) [ ok a w' ↦ ok a w' | err e w' ↦ err e (rolled_back w w') ]

  pub transaction-split {ℓ} :
      {A : Type 0} (P : Outcome (World B) A → Type ℓ) (m : M (World B) A) (w : World B)
      → ((a : A) (v : World B) → m w ≡ ok a v → P (ok a v))
      → ((e : Error) (v : World B) → m w ≡ err e v → P (err e (rolled_back w v)))
      → P (transaction m w)
  transaction-split P m w h g =
      Outcome-split (λ r. P (elim r [ ok a w' ↦ ok a w' | err e w' ↦ err e (rolled_back w w') ]))
        (m w) h g
