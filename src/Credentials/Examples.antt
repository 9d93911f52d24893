-- ===== src/Credentials/Examples.antt =====
-- A credential with two attributes over tables in memory, under a stand-in for Poseidon.
use zk_auth.Prelude.{
  ℕ, ◌+◌, ◌*◌, ◌≡◌, ◌++◌, refl, arith, Bool, true, false, ◌&&◌, ◌||◌, some, none, List, [], ◌∷◌,
  length, get_or, ◌==◌, if◌then◌else◌,
}
use zk_auth.Errors.{not_found_404, validation}
use zk_auth.Effects.{final, FailsWith, Succeeds}
use zk_auth.Stores.{Table, Journal, updated}
use zk_auth.Stores.Memory.{Rows, look, memory_table, memory_journal}
use zk_auth.Text.{all_digits, decimal_from}
use zk_auth.Fixtures.Accounts.{proof, seven}
use zk_auth.Merkle.{
  MerkleTree, nodes_of, padded, build_internal, copy, fill, elements_from, indices_from,
}
use zk_auth.Credentials.{
  CredentialTypeRow, CredentialRow, CredentialLeaf, DisclosureProofRow, LeafTable, Value, whole,
  fraction, active, IssuanceResult, hashes_of, valid_attributes, sort_names, leaf_data,
}
use zk_auth.Credentials.Service.{CredentialDb, issue_credential, revoke_credential}
use zk_auth.Credentials.Proofs.{Provable, generate_proof-issue}
use zk_auth.Credentials.Reissue.{IsUnique, reissue_fails}
use zk_auth.Credentials.Disclosure.{DisclosureEnv, DisclosureProofInput, verify_claim, bad_claim}
use zk_auth.Credentials.Revocation.{Accepted, verify_claim-Accepted, verify_claim-revoke}

abbrev pub types : Table CredentialTypeRow
types = memory_table

abbrev same_holder : CredentialRow → List (ℕ × CredentialRow) → Bool
same_holder r [] = false
same_holder r ((j, q) ∷ rest) =
    (q.user_id == r.user_id && q.credential_type_id == r.credential_type_id) || same_holder r rest

pub clash_absent :
    (s : Rows CredentialRow) (k : ℕ) (r : CredentialRow)
    → (Table.clash memory_table s k r || same_holder r s.rows) ≡ false
    → look k s.rows ≡ none
clash_absent s k r h = ground arith

-- One credential for a user and a type.
abbrev pub credentials : Table CredentialRow
credentials = record memory_table {
  clash = λ s k r. Table.clash memory_table s k r || same_holder r s.rows;
  clash_sound = clash_absent;
}

same_holder_found :
    (rows : List (ℕ × CredentialRow)) (j : ℕ) (q r : CredentialRow)
    → look j rows ≡ some q
    → q.user_id ≡ r.user_id
    → q.credential_type_id ≡ r.credential_type_id
    → same_holder r rows ≡ true
same_holder_found [] j q r e u t = absurd (ground (arith, e))
same_holder_found ((i, p) ∷ rest) j q r e u t =
    ground (arith, e, u, t, same_holder_found rest j q r)

credentials-IsUnique : IsUnique credentials
credentials-IsUnique s j k q r e u t = ground (arith, same_holder_found s.rows j q r e u t)

abbrev pub leaves : LeafTable
leaves = record {
  State = ℕ → List CredentialLeaf;
  down = λ s. false;
  leaves = λ s k. s k;
  clash = λ s k ls. false;
  add = λ k ls s j. if k == j then s k ++ ls else s j;
  drop = λ k s j. if k == j then [] else s j;
  leaves-add = λ k ls s j. refl;
  leaves-drop = λ k s j. refl;
}

abbrev pub audit : Journal DisclosureProofRow
audit = memory_journal

abbrev Db : Type 0
Db = CredentialDb types credentials leaves audit

-- The type 3 has the attributes 1 and 2.
abbrev schema : CredentialTypeRow
schema = record { attribute_names = 2 ∷ 1 ∷ []; is_active = true }

abbrev blank : Db
blank = record {
  types = record { rows = (3, schema) ∷ []; is_down = false };
  credentials = record { rows = []; is_down = false };
  leaves = λ k. [];
  audit = record { entries = []; is_down = false };
}

abbrev hash : ℕ → ℕ → ℕ
hash a b = 2 * a + 3 * b + 1

abbrev salts : ℕ → ℕ
salts i = 100 + i

abbrev attributes : List (ℕ × Value)
attributes = (1, whole 18) ∷ (2, whole 5) ∷ []

credential_steps : Unit {0}
unfolding issue_credential revoke_credential verify_claim valid_attributes sort_names leaf_data
    updated copy fill build_internal elements_from indices_from all_digits decimal_from
credential_steps = tt

-- A credential whose root is 7.
abbrev pub simple_row : CredentialRow
simple_row = record {
  user_id = 1;
  credential_type_id = 3;
  merkle_root = 7;
  attribute_count = 2;
  status = active;
  issued_at = 1000;
  expires_at = none;
  revoked_at = none;
  revocation_reason = none;
}

abbrev pub simple : Db
simple = record blank { credentials = record { rows = (40, simple_row) ∷ []; is_down = false } }

abbrev issued : Db
issued =
    final
      (issue_credential types credentials leaves audit hash 1000 40 salts 1 3 attributes none blank)

issue_test :
    FailsWith validation (
      issue_credential types credentials leaves audit hash 1000 40 salts 1 3
        ((1, whole 18) ∷ [])
        none
        blank)
    × FailsWith not_found_404 (
        issue_credential types credentials leaves audit hash 1000 40 salts 1 4 attributes none
          blank)
    × FailsWith zk_auth.Errors.other_error (
        issue_credential types credentials leaves audit hash 1000 40 salts 1 3
          ((1, whole 18) ∷ (2, fraction 5) ∷ [])
          none
          blank)
unfolding credential_steps
issue_test = (refl, refl, refl)

abbrev issued_leaves : List CredentialLeaf
issued_leaves =
    record { attribute_name = 1; leaf_index = 0; leaf_hash = hash 18 100; salt = 100 }
    ∷ record { attribute_name = 2; leaf_index = 1; leaf_hash = hash 5 101; salt = 101 }
    ∷ []

abbrev tree : MerkleTree
tree = record {
  root = get_or (nodes_of hash (padded hash (hashes_of issued_leaves))) 1 0;
  nodes = nodes_of hash (padded hash (hashes_of issued_leaves));
  leaves = padded hash (hashes_of issued_leaves);
}

abbrev receipt : IssuanceResult
receipt = record {
  credential_id = 40;
  merkle_root = tree.root;
  leaves = issued_leaves;
  issued_at = 1000;
}

generate_proof-issue_example :
    Provable types credentials leaves audit hash 40 1 2 salts attributes issued_leaves issued
unfolding credential_steps
generate_proof-issue_example =
    generate_proof-issue types credentials leaves audit hash 1000 40 salts 1 3 attributes none blank
      issued receipt schema 1 refl refl (omega arith)

-- The first credential is revoked, and another is asked for.
abbrev withdrawn : Db
withdrawn = final (revoke_credential types credentials leaves audit 2000 40 1 9 simple)

reissue_fails_example :
    ¬ Succeeds (
      issue_credential types credentials leaves audit hash 3000 41 salts 1 3 attributes none simple)
reissue_fails_example =
    reissue_fails types credentials leaves audit hash 3000 41 salts 1 3 attributes none simple 40
      simple_row credentials-IsUnique refl refl refl

abbrev pub env : DisclosureEnv
env = record {
  v_key = some 1;
  groth16_verify = λ key signals p. some true;
  sha256 = λ signals. length signals;
}

abbrev pub claim : DisclosureProofInput
claim = record {
  proof = proof;
  public_signals = seven ∷ seven ∷ seven ∷ [];
  credential_id = 40;
  claimed_predicate = 6;
  verifier_id = 8;
}

abbrev claimed : Db
claimed = final (verify_claim types credentials leaves audit env 1500 claim simple)

claim_test : FailsWith bad_claim (
    verify_claim types credentials leaves audit env 1500
      (record claim { public_signals = (48 ∷ seven) ∷ seven ∷ seven ∷ [] })
      simple)
unfolding credential_steps
claim_test = refl

verify_claim-Accepted_example :
    Accepted types credentials leaves audit env 1500 claim simple claimed
unfolding credential_steps
verify_claim-Accepted_example =
    verify_claim-Accepted types credentials leaves audit env 1500 claim simple claimed
      (record { credential_id = 40; claimed_predicate = 6; verified_at = 1500 }) refl

verify_claim-revoke_example :
    ¬ Succeeds (verify_claim types credentials leaves audit env 3000 claim withdrawn)
unfolding credential_steps
verify_claim-revoke_example =
    verify_claim-revoke types credentials leaves audit env 2000 3000 40 1 9 claim simple withdrawn
      refl refl
