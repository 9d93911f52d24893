-- ===== src/Credentials/Handlers.antt =====
-- The handlers of backend/src/controllers/credential.controller.ts, with the bodies that its schemas have
-- parsed.
use zk_auth.Prelude.{ℕ, Bool, true, false, Option, none, some, List, leb, map, if◌then◌else◌}
use zk_auth.Errors.{Error, app_error, invalid_claim_proof, validation}
use zk_auth.Effects.{M, ◌>>=◌, return, throw, try_catch}
use zk_auth.Stores.{Table, Journal}
use zk_auth.Credentials.{
  CredentialTypeRow, CredentialRow, CredentialLeaf, CredentialStatus, DisclosureProofRow, LeafTable,
  Value, IssuanceResult,
}
use zk_auth.Credentials.Service.{CredentialDb, issue_credential, get_credential, revoke_credential}
use zk_auth.Credentials.Disclosure.{
  DisclosureEnv, DisclosureProofInput, DisclosureResult, verify_claim,
}

-- 200 with `valid`.
pub data ClaimAnswer : Type 0 where
  claim_holds : DisclosureResult → ClaimAnswer
  claim_fails : ClaimAnswer

pub record CredentialView : Type 0 where
  pub merkle_root : ℕ
  pub attribute_count : ℕ
  pub status : CredentialStatus
  pub issued_at : ℕ
  pub expires_at : Option ℕ
  pub attributes : List (ℕ × ℕ)

abbrev pub is_future : ℕ → Option ℕ → Bool
is_future now none = true
is_future now (some t) = if leb t now then false else true

abbrev pub is_invalid_claim : Error → Bool
is_invalid_claim (app_error invalid_claim_proof status) = true
is_invalid_claim _ = false

abbrev pub view_of : CredentialRow × List CredentialLeaf → CredentialView
view_of (row, leaves) = record {
  merkle_root = row.merkle_root;
  attribute_count = row.attribute_count;
  status = row.status;
  issued_at = row.issued_at;
  expires_at = row.expires_at;
  attributes = map (λ l. (l.attribute_name, l.leaf_index)) leaves;
}

module _ (T : Table CredentialTypeRow) (C : Table CredentialRow) (L : LeafTable)
    (A : Journal DisclosureProofRow) where
  pub post_issue_credential :
      (ℕ → ℕ → ℕ)
      → ℕ
      → ℕ
      → (ℕ → ℕ)
      → ℕ
      → ℕ
      → List (ℕ × Value)
      → Option ℕ
      → M (CredentialDb T C L A) IssuanceResult
  post_issue_credential poseidon now id salts user type attributes expires_at =
      if is_future now expires_at
      then issue_credential T C L A poseidon now id salts user type attributes expires_at
      else throw validation

  -- An invalid proof is not an error.
  unfoldable pub post_verify_claim :
      DisclosureEnv → ℕ → DisclosureProofInput → M (CredentialDb T C L A) ClaimAnswer
  post_verify_claim env now input =
      try_catch (verify_claim T C L A env now input >>= λ r. return (claim_holds r))
        λ e. if is_invalid_claim e then return claim_fails else throw e

  pub post_revoke_credential : ℕ → ℕ → ℕ → ℕ → M (CredentialDb T C L A) (Unit {0})
  post_revoke_credential now session_user id reason =
      revoke_credential T C L A now id session_user reason

  pub get_credential_handler : ℕ → ℕ → M (CredentialDb T C L A) CredentialView
  get_credential_handler session_user id = do
    found ← get_credential T C L A id session_user
    return (view_of found)
