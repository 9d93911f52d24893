-- ===== src/Credentials/Disclosure.antt =====
-- The verification of a selective disclosure: backend/src/services/credential/disclosure.service.ts.
-- The signals are the texts [root, threshold, leaf_index]; snarkjs and SHA-256 are parameters.
use zk_auth.Prelude.{
  ℕ, Bool, true, false, ◌&&◌, Option, none, some, List, [], ◌∷◌, ◌==◌, leb, ltb, length,
  if◌then◌else◌,
}
use zk_auth.Errors.{
  Error, app_error, service_unavailable, credential_revoked, credential_expired,
  invalid_claim_proof, not_found_404,
}
use zk_auth.Effects.{M, ok, err, ◌>>=◌, ◌>>◌, return, throw, best_effort}
use zk_auth.Stores.{Table, Journal, find_unique, insert}
use zk_auth.Text.{Text, all_digits, decimal}
use zk_auth.Zkp.{Proof, is_valid_field_element}
use zk_auth.Credentials.{
  CredentialTypeRow, CredentialRow, DisclosureProofRow, LeafTable, active, revoked, expired,
}
use zk_auth.Credentials.Service.{CredentialDb, in_credentials}

pub record DisclosureProofInput : Type 0 where
  pub proof : Proof
  pub public_signals : List Text
  pub credential_id : ℕ
  pub claimed_predicate : ℕ
  pub verifier_id : ℕ

pub record DisclosureResult : Type 0 where
  pub credential_id : ℕ
  pub claimed_predicate : ℕ
  pub verified_at : ℕ

-- The loaded key, `groth16.verify`, which may throw (`none`), and the hash of the signals' JSON.
pub record DisclosureEnv : Type 0 where
  pub v_key : Option ℕ
  pub groth16_verify : ℕ → List Text → Proof → Option Bool
  pub sha256 : List Text → ℕ

abbrev pub bad_claim : Error
bad_claim = app_error invalid_claim_proof 400

-- A text of digits is what `toString(10)` prints: it has no leading zero.
abbrev pub is_printed : Text → Bool
is_printed [] = false
is_printed (c ∷ []) = true
is_printed (c ∷ d ∷ ds) = if c == 48 then false else true

-- `text === BigInt('0x' + hex).toString(10)`, for a text of digits and the number of the hex text.
abbrev pub prints : ℕ → Text → Bool
prints n text = is_printed text && decimal text == n

-- `/^\d{1,78}$/`, `/^\d+$/` and the range of the leaf index.
unfoldable pub valid_signals : Text → Text → Bool
valid_signals root leaf_index =
    is_valid_field_element root
    && (all_digits leaf_index && (leb 1 (length leaf_index) && leb (decimal leaf_index) 255))

abbrev pub is_overdue : ℕ → Option ℕ → Bool
is_overdue now none = false
is_overdue now (some t) = ltb t now

module _ (T : Table CredentialTypeRow) (C : Table CredentialRow) (L : LeafTable)
    (A : Journal DisclosureProofRow) (env : DisclosureEnv) where
  abbrev Db : Type 0
  Db = CredentialDb T C L A

  abbrev pub in_audit : M (Journal.State A) (Unit {0}) → M Db (Unit {0})
  in_audit m w = elim (m w.audit) [
    | ok a s ↦ ok a (record w { audit = s })
    | err e s ↦ err e (record w { audit = s })
  ]

  abbrev pub audit_row : ℕ → DisclosureProofInput → Bool → DisclosureProofRow
  audit_row now input valid = record {
    credential_id = input.credential_id;
    verifier_id = input.verifier_id;
    claimed_predicate = input.claimed_predicate;
    proof_valid = valid;
    verified_at = now;
    signals_hash = env.sha256 input.public_signals;
  }

  -- Both outcomes are recorded, at best.
  unfoldable pub conclude : ℕ → DisclosureProofInput → Option Bool → M Db DisclosureResult
  conclude now input none = throw bad_claim
  conclude now input (some valid) = do
    best_effort (in_audit (insert A (audit_row now input valid)))
    if valid
        then return (record {
          credential_id = input.credential_id;
          claimed_predicate = input.claimed_predicate;
          verified_at = now;
        })
        else throw bad_claim

  unfoldable pub check_active :
      ℕ → DisclosureProofInput → ℕ → Text → CredentialRow → M Db DisclosureResult
  unfolding conclude
  check_active now input key root row =
      if is_overdue now row.expires_at
      then throw (app_error credential_expired 400)
      else if prints row.merkle_root root
      then conclude now input (env.groth16_verify key input.public_signals input.proof)
      else throw bad_claim

  unfoldable pub check_credential :
      ℕ → DisclosureProofInput → ℕ → Text → Option CredentialRow → M Db DisclosureResult
  unfolding check_active
  check_credential now input key root none = throw not_found_404
  check_credential now input key root (some row) = elim row.status [
    | active ↦ check_active now input key root row
    | revoked ↦ throw (app_error credential_revoked 400)
    | expired ↦ throw (app_error credential_expired 400)
  ]

  unfoldable pub claim_with : ℕ → DisclosureProofInput → ℕ → List Text → M Db DisclosureResult
  unfolding check_credential valid_signals
  claim_with now input key (root ∷ threshold ∷ leaf_index ∷ []) =
      if valid_signals root leaf_index
      then (do
        found ← in_credentials T C L A (find_unique C input.credential_id)
        check_credential now input key root found)
      else throw bad_claim
  claim_with now input key signals = throw bad_claim

  unfoldable pub claim_loaded : ℕ → DisclosureProofInput → Option ℕ → M Db DisclosureResult
  unfolding claim_with
  claim_loaded now input none = throw (app_error service_unavailable 503)
  claim_loaded now input (some key) = claim_with now input key input.public_signals

  unfoldable pub verify_claim : ℕ → DisclosureProofInput → M Db DisclosureResult
  unfolding claim_loaded
  verify_claim now input = claim_loaded now input env.v_key
