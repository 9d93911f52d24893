-- ===== src/Zkp/Examples.antt =====
-- The verification of proofs, over the stores in memory.
use zk_auth.Prelude.{◌≡◌, refl, [], ◌∷◌}
use zk_auth.Effects.{ok, forget}
use zk_auth.Text.{all_digits, decimal_from}
use zk_auth.Fixtures.{memory}
use zk_auth.Fixtures.Accounts.{zkp_env, accounts, proof, five, seven, nine}
use zk_auth.Zkp.{VerificationInput, verify}
use zk_auth.Zkp.Laws.{Checked, verify-Checked}

abbrev input : VerificationInput
input = record { proof = proof; public_signals = seven ∷ five ∷ nine ∷ []; challenge_nonce = 9 }

verify_test :
    forget (verify memory zkp_env input accounts)
    ≡ ok (record { nullifier_hash = 7; commitment_root = 5; user_id = 1 }) tt
unfolding verify all_digits decimal_from
verify_test = refl

verify-Checked_example :
    Checked memory zkp_env input accounts (verify memory zkp_env input accounts)
verify-Checked_example = verify-Checked memory zkp_env input accounts refl
