-- ===== src/Recovery/Examples.antt =====
-- Registrations and recoveries over the stores in memory.
use zk_auth.Prelude.{ℕ, ◌≡◌, refl, arith, some, none, true}
use zk_auth.Errors.{unauthorized_401}
use zk_auth.Effects.{ok, final, forget, FailsWith, Succeeds}
use zk_auth.Schema.{UserRow}
use zk_auth.Stores.{updated}
use zk_auth.World.{World}
use zk_auth.Fixtures.{memory, Sealed}
use zk_auth.Fixtures.Accounts.{
  accounts, recovery_env, login_env, request, body, seven, eight, drawn,
}
use zk_auth.Text.{all_digits, decimal_from}
use zk_auth.Login.{VerifyRequest, recovers}
use zk_auth.Recovery.{
  RecoveryExecutionInput, RecoveryExecutionResult, user_id, CodeDraw, in_use, recovery_token_of,
  execute_recovery, generate_for_user, post_register,
}
use zk_auth.Recovery.Codes.{code, open_code}
use zk_auth.Recovery.Laws.{RecoveryOutcome, recover-RecoveryOutcome}
use zk_auth.Recovery.Replace.{user_row}
use zk_auth.Recovery.Account.{recover_once, recover_locks_out}

abbrev draw : CodeDraw
draw = record { id = 50; mnemonic = 60; salt = 0 }

abbrev input : ℕ → RecoveryExecutionInput
input mnemonic = record {
  user_identifier = user_id 1;
  mnemonic = mnemonic;
  new_commitment_hash = eight;
  new_public_key = 2;
}

-- User 1 has the recovery code 50 with the mnemonic 60, and loses the key at time 1000.
abbrev coded : World memory
coded = final (generate_for_user memory recovery_env 0 draw 1 accounts)

abbrev recovered : World memory
recovered = final (execute_recovery memory recovery_env 1000 (input 60) coded)

abbrev result : RecoveryExecutionResult Sealed
result = record { recovery_token = recovery_token_of memory recovery_env 1000 1; user_id = 1 }

recoveries : Unit {0}
unfolding generate_for_user execute_recovery post_register updated all_digits decimal_from
recoveries = tt

recovery_test :
    (forget (execute_recovery memory recovery_env 1000 (input 60) coded) ≡ ok result tt)
    × FailsWith unauthorized_401 (execute_recovery memory recovery_env 1000 (input 61) coded)
    × FailsWith in_use (post_register memory recovery_env 0 2 draw 5 3 accounts)
unfolding recoveries
recovery_test = (refl, refl, refl)

recover-RecoveryOutcome_example :
    RecoveryOutcome memory recovery_env 1000
      (input 60)
      coded
      2000
      1
      (execute_recovery memory recovery_env 1000 (input 60) coded)
recover-RecoveryOutcome_example =
    recover-RecoveryOutcome memory recovery_env 1000 (input 60) coded 2000 1

only_code : (x : ℕ) → open_code memory 1 (code memory coded x) ≡ true → x ≡ 50
unfolding recoveries
only_code x h = ground (arith, h)

recover_once_example : ¬ Succeeds (execute_recovery memory recovery_env 2000 (input 60) recovered)
unfolding recoveries
recover_once_example =
    recover_once memory recovery_env 1000 2000 (input 60) (input 60) coded recovered 50 result refl
      only_code refl

abbrev new_request : VerifyRequest Sealed
new_request = record (request seven none) { body = record (body seven none) { commitment = eight } }

only_user : (j : ℕ) (r : UserRow) → user_row memory recovered j ≡ some r → j ≡ 1
unfolding recoveries
only_user j r h = ground (arith, h)

unique :
    (j k : ℕ) (r q : UserRow)
    → user_row memory recovered j ≡ some r
    → user_row memory recovered k ≡ some q
    → r.commitment_hash ≡ q.commitment_hash
    → j ≡ k
unique j k r q h l e = ground (arith, only_user j r h, only_user k q l)

recover_locks_out_example :
    ¬ Succeeds (zk_auth.Login.post_verify memory login_env 2000 (drawn 10 30) new_request recovered)
unfolding recoveries
recover_locks_out_example =
    recover_locks_out memory recovery_env login_env 1000 2000 (drawn 10 30) (input 60) new_request
      coded recovered result refl refl unique refl
