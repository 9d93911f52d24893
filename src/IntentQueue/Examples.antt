-- ===== src/IntentQueue/Examples.antt =====
-- A queue of two intents in memory.
use zk_auth.Prelude.{
  ℕ, ◌+◌, ◌==◌, ◌≡◌, refl, Option, none, some, [], Bool, true, false, if◌then◌else◌,
}
use zk_auth.Effects.{ok, final, forget}
use zk_auth.Stores.Memory.{memory_table}
use zk_auth.IntentQueue.{
  Intent, Queue, issue_credential, new_intent, enqueue, replay_one, replay_pending,
}
use zk_auth.IntentQueue.Laws.{Replayed, replay_settled}

abbrev nothing : Queue memory_table ℕ
nothing = record { is_open = true; intents = record { rows = []; is_down = false }; api = 0 }

-- Intents 3 and 4 wait; the server answers for intent 3 only.
abbrev waiting : Queue memory_table ℕ
waiting = final (
    enqueue memory_table ℕ 20 4 issue_credential 8
      (final (enqueue memory_table ℕ 10 3 issue_credential 7 nothing)))

abbrev handler : ℕ → Intent → ℕ → Option ℕ × ℕ
handler id i calls = (if id == 3 then some 99 else none, calls + 1)

replay_test : forget (replay_pending memory_table ℕ handler waiting) ≡ ok (1, 1) tt
unfolding enqueue replay_pending
replay_test = refl

replay_settled_example :
    (done : Bool) × (w' : Queue memory_table ℕ) × (replay_one memory_table ℕ handler 4
        (new_intent 20 issue_credential 8)
        waiting
      ≡ ok done w')
    × Replayed memory_table ℕ (none, 1) 4 (new_intent 20 issue_credential 8) waiting done w'
unfolding enqueue
replay_settled_example =
    replay_settled memory_table ℕ handler 4 (new_intent 20 issue_credential 8) waiting refl refl
      refl
