-- ===== src/Presentations/Examples.antt =====
-- A presentation of the credential 40 to a verifier, who has asked for it with the challenge 55.
use zk_auth.Prelude.{◌≡◌, refl, true, false, some, none, List, [], ◌∷◌, arith, ◌==◌, if◌then◌else◌}
use zk_auth.Effects.{ok, final, FailsWith, Succeeds}
use zk_auth.Stores.{Keyspace}
use zk_auth.Stores.Memory.{memory_keys}
use zk_auth.Text.{all_digits, decimal_from}
use zk_auth.Fixtures.Accounts.{proof, seven}
use zk_auth.Credentials.Disclosure.{verify_claim, bad_claim}
use zk_auth.Credentials.Examples
use zk_auth.Credentials.Examples.{types, credentials, leaves, audit, simple}
use zk_auth.Presentations.{
  ProofRequest, Presentation, Grant, VerifierEnv, Verifier, post_request_proof,
  post_verify_presentation,
}
use zk_auth.Presentations.Stripped.{stripped, post_verify-stripped}
use zk_auth.Presentations.Once.{Call, requests_proof, presents, run_calls, granted_once}

abbrev requests : Keyspace ProofRequest
requests = memory_keys

-- The issuer 3 has the key 4; a signature is the number 77.
abbrev verifier_env : VerifierEnv
verifier_env = record {
  disclosure = zk_auth.Credentials.Examples.env;
  resolve_key = λ did. if did == 3 then some 4 else none;
  ed25519_verify = λ key signed value. value == 77;
  sha256 = λ signed. 12;
}

abbrev quiet : Verifier verifier_env requests types credentials leaves audit
quiet = record { requests = record { cell = λ k. none; is_down = false }; db = simple }

abbrev presentation : Presentation
presentation = record {
  is_presentation = true;
  zk_disclosure = some (record {
    groth16_proof = some proof;
    public_signals = some (seven ∷ seven ∷ seven ∷ []);
    credential_id = 40;
    claimed_predicate = 6;
    verifier_challenge = some 55;
  });
  credential = some (record { issuer = some 3; proof_value = some 77; content = [] });
  holder = 9;
}

presentation_steps : Unit {0}
unfolding verify_claim post_request_proof post_verify_presentation all_digits decimal_from
presentation_steps = tt

abbrev requested : Verifier verifier_env requests types credentials leaves audit
requested =
    final
      (post_request_proof verifier_env requests types credentials leaves audit 1000 70 55 8 quiet)

abbrev granted : Verifier verifier_env requests types credentials leaves audit
granted = final (
    post_verify_presentation verifier_env requests types credentials leaves audit 2000 70
      presentation requested)

abbrev expected : Grant
expected = record {
  claim = record { credential_id = 40; claimed_predicate = 6; verified_at = 2000 };
  issuer_did = 3;
  verifier_did = 8;
}

forged_test : FailsWith bad_claim (
    post_verify_presentation verifier_env requests types credentials leaves audit 2000 70
      (record presentation {
        credential = some (record { issuer = some 3; proof_value = some 78; content = [] });
      })
      requested)
unfolding presentation_steps
forged_test = refl

-- The presentation again, and a request of another verifier.
abbrev later_calls : List Call
later_calls = presents 2500 70 presentation ∷ requests_proof 2600 71 56 8 ∷ []

granted_once_example : ¬ Succeeds (
    post_verify_presentation verifier_env requests types credentials leaves audit 3000 70
      presentation
      (run_calls verifier_env requests types credentials leaves audit later_calls granted))
unfolding presentation_steps
granted_once_example =
    granted_once verifier_env requests types credentials leaves audit 2000 3000 70 presentation
      presentation later_calls requested granted expected refl ((λ e. ground (arith, e)), tt)

post_verify-stripped_example :
    post_verify_presentation verifier_env requests types credentials leaves audit 2000 70
      (stripped presentation)
      requested
    ≡ ok expected granted
unfolding presentation_steps
post_verify-stripped_example =
    post_verify-stripped verifier_env requests types credentials leaves audit 2000 70 presentation
      requested granted expected refl
