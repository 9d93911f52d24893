-- ===== src/Telemetry/Examples.antt =====
-- Events over a database in memory that always answers.
use zk_auth.Prelude.{ℕ, ◌≡◌, refl, Bool, ltb, false, [], ◌∷◌, List}
use zk_auth.Stores.{Journal}
use zk_auth.Telemetry.{Telemetry, Action, event, fires, act, run}

abbrev pub steady : Journal ℕ
steady = record {
  State = List ℕ;
  down = λ _. false;
  entries = λ s. s;
  append = λ e s. e ∷ s;
  entries-append = λ e s. refl;
}

-- The table takes numbers up to 99.
abbrev pub small : ℕ → Bool
small e = ltb e 100

abbrev pub idle : Telemetry steady small
idle = record { buffer = []; timer = false; written = [] }

abbrev actions : List (Action steady small)
actions = event 1 ∷ event 2 ∷ fires ∷ fires ∷ event 3 ∷ []

-- One event that does not fit drops the whole batch.
dropped_test : (run steady small (event 1 ∷ event 100 ∷ fires ∷ []) idle).written ≡ []
unfolding act
dropped_test = refl

run_test : (run steady small actions idle).written ≡ 2 ∷ 1 ∷ []
unfolding act
run_test = refl
