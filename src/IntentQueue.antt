-- ===== src/IntentQueue.antt =====
-- The queue of pending operations of web/src/lib/intentQueue.ts. Its object store in IndexedDB is a
-- table with the intent's id as its key, and the server behind the handler is a state `Api`. Payloads
-- and results are numbers; the error text of a failed attempt is left out.
pub mod Laws
mod Examples
use zk_auth.Prelude.{
  ℕ, suc, ◌+◌, ◌≤◌, leb, Bool, true, false, Option, none, some, List, [], ◌∷◌, if◌then◌else◌,
}
use zk_auth.Errors.{Error, other_error}
use zk_auth.Effects.{M, Outcome, ok, err, ◌>>=◌, ◌>>◌, return, throw, try_catch}
use zk_auth.Stores.{Table, find_unique, create}

pub data IntentType : Type 0 where
  issue_credential generate_proof_of submit_presentation register_user recover_account : IntentType

pub data IntentStatus : Type 0 where
  pending_intent completed_intent failed_intent : IntentStatus

pub record Intent : Type 0 where
  pub type : IntentType
  pub payload : ℕ
  pub status : IntentStatus
  pub created_at : ℕ
  pub attempts : ℕ
  pub result : Option ℕ

abbrev pub max_attempts : ℕ
max_attempts = 5

pub is_pending : Intent → Bool
is_pending i = elim i.status [
  | pending_intent ↦ true
  | completed_intent ↦ false
  | failed_intent ↦ false
]

abbrev pub new_intent : ℕ → IntentType → ℕ → Intent
new_intent now type payload = record {
  type = type;
  payload = payload;
  status = pending_intent;
  created_at = now;
  attempts = 0;
  result = none;
}

-- The updates that `complete` and `fail` merge into an intent. `tried` is the count that `fail` read.
abbrev pub completed_with : ℕ → Intent → Intent
completed_with r i = record i { status = completed_intent; result = some r }

abbrev pub failed_after : ℕ → Intent → Intent
failed_after tried i = record i {
  attempts = tried;
  status = if leb max_attempts tried then failed_intent else pending_intent;
}

module _ (T : Table Intent) (Api : Type 0) where
  -- `is_open` is false where the browser has no IndexedDB: `_db` is null.
  pub record Queue : Type 0 where
    pub is_open : Bool
    pub intents : Table.State T
    pub api : Api

  abbrev in_intents : {A : Type 0} → M (Table.State T) A → M Queue A
  in_intents m w = elim (m w.intents) [
    | ok a s ↦ ok a (record w { intents = s })
    | err e s ↦ err e (record w { intents = s })
  ]

  -- IndexedDB's `put`, which overwrites.
  abbrev pub put_intent : ℕ → Intent → M (Table.State T) (Unit {0})
  put_intent id i s = if Table.down T s then err other_error s else ok tt (Table.write T id i s)

  -- `id` is the random UUID.
  pub enqueue : ℕ → ℕ → IntentType → ℕ → M Queue ℕ
  enqueue now id type payload w =
      if w.is_open
      then (in_intents (create T id (new_intent now type payload)) >>= λ _. return id) w
      else ok id w

  pub patch : ℕ → (Intent → Intent) → M Queue (Unit {0})
  patch id change = do
    existing ← in_intents (find_unique T id)
    elim existing [ none ↦ return tt | some i ↦ in_intents (put_intent id (change i)) ]

  pub complete : ℕ → ℕ → M Queue (Unit {0})
  unfolding patch
  complete id r w = if w.is_open then patch id (completed_with r) w else ok tt w

  count_failure : ℕ → M Queue (Unit {0})
  unfolding patch
  count_failure id = do
    existing ← in_intents (find_unique T id)
    elim existing [ none ↦ return tt | some i ↦ patch id (failed_after (suc i.attempts)) ]

  pub fail : ℕ → M Queue (Unit {0})
  unfolding count_failure
  fail id w = if w.is_open then count_failure id w else ok tt w

  -- The pending intents, each with its id.
  with_rows : List ℕ → Table.State T → List (ℕ × Intent)
  with_rows [] s = []
  with_rows (id ∷ ids) s = add_row id (Table.row T s id) (with_rows ids s)
    where
      add_row : ℕ → Option Intent → List (ℕ × Intent) → List (ℕ × Intent)
      add_row j none found = found
      add_row j (some i) found = (j, i) ∷ found

  pub get_pending : M Queue (List (ℕ × Intent))
  unfolding with_rows is_pending
  get_pending w =
      if w.is_open
      then (if Table.down T w.intents
          then err other_error w
          else ok (with_rows (Table.find_keys T (λ id i. is_pending i) w.intents) w.intents) w)
      else ok [] w

  -- `none` is a handler that throws.
  call_handler : (ℕ → Intent → Api → Option ℕ × Api) → ℕ → Intent → M Queue ℕ
  call_handler handler id i w =
      let (answer, api) = handler id i w.api in
      elim answer [
        | none ↦ err other_error (record w { api = api })
        | some r ↦ ok r (record w { api = api })
      ]

  -- One round of the loop: whether the intent counts as replayed.
  pub replay_one : (ℕ → Intent → Api → Option ℕ × Api) → ℕ → Intent → M Queue Bool
  unfolding call_handler complete fail
  replay_one handler id i =
      try_catch (do r ← call_handler handler id i; complete id r; return true)
        λ _. do fail id; return false

  abbrev pub tally : Bool → ℕ × ℕ → ℕ × ℕ
  tally true (replayed, failed) = (suc replayed, failed)
  tally false (replayed, failed) = (replayed, suc failed)

  replay_all : (ℕ → Intent → Api → Option ℕ × Api) → List (ℕ × Intent) → ℕ × ℕ → M Queue (ℕ × ℕ)
  unfolding replay_one
  replay_all handler [] counts = return counts
  replay_all handler ((id, i) ∷ rest) counts = do
    done ← replay_one handler id i
    replay_all handler rest (tally done counts)

  pub replay_pending : (ℕ → Intent → Api → Option ℕ × Api) → M Queue (ℕ × ℕ)
  unfolding get_pending replay_all
  replay_pending handler = do pending ← get_pending; replay_all handler pending (0, 0)
