-- ===== src/IntentQueue/Laws.antt =====
-- What a replay leaves of an intent (web/src/lib/intentQueue.ts).
use zk_auth.Prelude.{
  ℕ, zero, suc, ◌≡◌, refl, ◌==◌, leb, Bool, true, false, Option, none, some, arith, is_some,
  if◌then◌else◌, Option-cases, inl, inr,
}
use zk_auth.Effects.{ok}
use zk_auth.Stores.{Table}
use zk_auth.IntentQueue.{
  Intent, IntentStatus, pending_intent, completed_intent, failed_intent, max_attempts,
  completed_with, failed_after, Queue, replay_one,
}

-- What the row of an intent becomes when its handler answers or throws. All that is not named here
-- stays as it was.
abbrev pub status_after : Option ℕ → ℕ → IntentStatus
status_after (some r) tried = completed_intent
status_after none zero = pending_intent
status_after none (suc zero) = pending_intent
status_after none (suc (suc zero)) = pending_intent
status_after none (suc (suc (suc zero))) = pending_intent
status_after none (suc (suc (suc (suc more)))) = failed_intent

abbrev pub attempts_after : Option ℕ → ℕ → ℕ
attempts_after (some r) tried = tried
attempts_after none tried = suc tried

abbrev pub result_after : Option ℕ → Option ℕ → Option ℕ
result_after (some r) old = some r
result_after none old = old

pub record Settled (answer : Option ℕ) (i i' : Intent) : Type 0 where
  pub status : i'.status ≡ status_after answer i.attempts
  pub attempts : i'.attempts ≡ attempts_after answer i.attempts
  pub result : i'.result ≡ result_after answer i.result
  pub type : i'.type ≡ i.type
  pub payload : i'.payload ≡ i.payload
  pub created_at : i'.created_at ≡ i.created_at

status_lem :
    (tried : ℕ)
    → (if leb max_attempts (suc tried) then failed_intent else pending_intent)
      ≡ status_after none tried
status_lem zero = refl
status_lem (suc zero) = refl
status_lem (suc (suc zero)) = refl
status_lem (suc (suc (suc zero))) = refl
status_lem (suc (suc (suc (suc more)))) = ground arith

failed-Settled : (i : Intent) → Settled none i (failed_after (suc i.attempts) i)
failed-Settled i = record {
  status = status_lem i.attempts;
  attempts = refl;
  result = refl;
  type = refl;
  payload = refl;
  created_at = refl;
}

completed-Settled : (r : ℕ) (i : Intent) → Settled (some r) i (completed_with r i)
completed-Settled r i = record {
  status = refl;
  attempts = refl;
  result = refl;
  type = refl;
  payload = refl;
  created_at = refl;
}

module _ (T : Table Intent) (Api : Type 0) where
  -- What a replay of the intent `i` makes of the queue, with the intent `i'` in its place.
  pub record Replayed (answer : Option ℕ × Api) (id : ℕ) (i : Intent) (w : Queue T Api)
      (done : Bool) (w' : Queue T Api) : Type 0 where
    pub settled : Intent
    pub settles : Settled answer.0 i settled
    pub stored :
        (j : ℕ)
        → Table.row T w'.intents j ≡ (if id == j then some settled else Table.row T w.intents j)
    pub api : w'.api ≡ answer.1
    pub counted : done ≡ is_some answer.0

  -- One replay of an intent, while IndexedDB answers, calls its handler once. An answer completes
  -- the intent with that result. A throw counts one attempt more: the intent stays pending after the
  -- first four and is given up at the fifth. It is reported as replayed exactly when the handler
  -- answered; the rest of the intent and all other intents stay as they were.
  pub replay_settled :
      (handler : ℕ → Intent → Api → Option ℕ × Api) (id : ℕ) (i : Intent) (w : Queue T Api)
      → w.is_open ≡ true
      → Table.down T w.intents ≡ false
      → Table.row T w.intents id ≡ some i
      → (done : Bool) × (w' : Queue T Api) × (replay_one T Api handler id i w ≡ ok done w')
        × Replayed (handler id i w.api) id i w done w'
  unfolding replay_one
  replay_settled handler id i w o up found = elim (Option-cases (handler id i w.api).0) [
    | inl e ↦ (
      false,
      record w {
        api = (handler id i w.api).1;
        intents = Table.write T id (failed_after (suc i.attempts) i) w.intents;
      },
      ground (arith, o, up, found, e),
      record {
        settled = failed_after (suc i.attempts) i;
        settles = rw e (failed-Settled i);
        stored = λ j. Table.row-write T id (failed_after (suc i.attempts) i) w.intents j;
        api = refl;
        counted = rw e refl;
      },
    )
    | inr (r, e) ↦ (
      true,
      record w {
        api = (handler id i w.api).1;
        intents = Table.write T id (completed_with r i) w.intents;
      },
      ground (arith, o, up, found, e),
      record {
        settled = completed_with r i;
        settles = rw e (completed-Settled r i);
        stored = λ j. Table.row-write T id (completed_with r i) w.intents j;
        api = refl;
        counted = rw e refl;
      },
    )
  ]
