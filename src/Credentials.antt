-- ===== src/Credentials.antt =====
-- Credentials: backend/src/services/credential/credential.service.ts and disclosure.service.ts beside
-- it (in Credentials/Disclosure). A name of an attribute is a number that stands in the order of the
-- names' texts; hashes and salts are the numbers that their hexadecimal texts say. What is drawn at
-- random (the id, the salts) is an argument, and so is Poseidon. All tables are PostgreSQL.
pub mod Service
pub mod Disclosure
pub mod Issuance
pub mod Proofs
pub mod Reissue
pub mod Revocation
pub mod Handlers
pub mod Examples
use zk_auth.Prelude.{
  ℕ, zero, suc, ◌≡◌, ◌+◌, Bool, true, false, not, ◌&&◌, Option, none, some, List, [], ◌∷◌, ◌++◌,
  map, ◌==◌, ltb, leb, select, length, if◌then◌else◌,
}
use zk_auth.Errors.{
  Error, app_error, credential_not_found, not_found_404, validation, other_error, unique_violation,
}
use zk_auth.Effects.{M, ok, err, ◌>>=◌, ◌>>◌, return, throw}
use zk_auth.Stores.{Table, Journal, mem, find_unique, find_first, create, update}
use zk_auth.Merkle.{MerkleTree, build_tree}

pub data CredentialStatus : Type 0 where
  active revoked expired : CredentialStatus

pub data Reason : Type 0 where
  reissued : Reason
  stated : ℕ → Reason

pub record CredentialTypeRow : Type 0 where
  pub attribute_names : List ℕ
  pub is_active : Bool

pub record CredentialRow : Type 0 where
  pub user_id : ℕ
  pub credential_type_id : ℕ
  pub merkle_root : ℕ
  pub attribute_count : ℕ
  pub status : CredentialStatus
  pub issued_at : ℕ
  pub expires_at : Option ℕ
  pub revoked_at : Option ℕ
  pub revocation_reason : Option Reason

pub record CredentialLeaf : Type 0 where
  pub attribute_name : ℕ
  pub leaf_index : ℕ
  pub leaf_hash : ℕ
  pub salt : ℕ

-- `Number` of an attribute: a whole number, a number between `n` and `n + 1`, or anything else, such as
-- NaN or a negative number.
pub data Value : Type 0 where
  whole fraction : ℕ → Value
  out_of_field : Value

pub record IssuanceResult : Type 0 where
  pub credential_id : ℕ
  pub merkle_root : ℕ
  pub leaves : List CredentialLeaf
  pub issued_at : ℕ

pub record DisclosureProofRow : Type 0 where
  pub credential_id : ℕ
  pub verifier_id : ℕ
  pub claimed_predicate : ℕ
  pub proof_valid : Bool
  pub verified_at : ℕ
  pub signals_hash : ℕ

abbrev pub max_value : ℕ
max_value = 4294967295

abbrev pub is_valid_value : Value → Bool
is_valid_value (whole n) = leb n max_value
is_valid_value (fraction n) = ltb n max_value
is_valid_value out_of_field = false

abbrev pub names_of : List (ℕ × Value) → List ℕ
names_of attributes = map (λ a. a.0) attributes

unfoldable pub all_valid : List (ℕ × Value) → Bool
all_valid [] = true
all_valid ((name, v) ∷ rest) = is_valid_value v && all_valid rest

abbrev pub is_nil : List ℕ → Bool
is_nil [] = true
is_nil (x ∷ xs) = false

-- No key of the schema is missing, no other key is given, and every value is in the 32-bit range.
unfoldable pub valid_attributes : List ℕ → List (ℕ × Value) → Bool
unfolding all_valid
valid_attributes schema attributes =
    is_nil (select (λ n. not (mem n (names_of attributes))) schema)
    && (is_nil (select (λ n. not (mem n schema)) (names_of attributes)) && all_valid attributes)

unfoldable pub insert_name : ℕ → List ℕ → List ℕ
insert_name x [] = x ∷ []
insert_name x (y ∷ ys) = if leb x y then x ∷ y ∷ ys else y ∷ insert_name x ys

-- `schemaKeys.sort()`
unfoldable pub sort_names : List ℕ → List ℕ
unfolding insert_name
sort_names [] = []
sort_names (x ∷ xs) = insert_name x (sort_names xs)

-- `BigInt` of the value of an attribute, which throws on a number that is not whole.
abbrev pub whole_of : Value → Option ℕ
whole_of (whole n) = some n
whole_of (fraction n) = none
whole_of out_of_field = none

unfoldable pub value_of : ℕ → List (ℕ × Value) → Option ℕ
value_of name [] = none
value_of name ((n, v) ∷ rest) = if n == name then whole_of v else value_of name rest

abbrev pub is_active_for : ℕ → ℕ → ℕ → CredentialRow → Bool
is_active_for user type id row =
    row.user_id == user
    && (row.credential_type_id == type
        && elim row.status [ active ↦ true | revoked ↦ false | expired ↦ false ])

abbrev pub revoke_for : Reason → ℕ → CredentialRow → CredentialRow
revoke_for reason now row = record row {
  status = revoked;
  revoked_at = some now;
  revocation_reason = some reason;
}

abbrev pub new_credential : ℕ → ℕ → ℕ → MerkleTree → List CredentialLeaf → Option ℕ → CredentialRow
new_credential now user type tree leaves expires_at = record {
  user_id = user;
  credential_type_id = type;
  merkle_root = tree.root;
  attribute_count = length leaves;
  status = active;
  issued_at = now;
  expires_at = expires_at;
  revoked_at = none;
  revocation_reason = none;
}

-- The table of leaves, by the credential that they belong to.
pub record LeafTable : Type 1 where
  pub State : Type 0
  pub down : State → Bool
  pub leaves : State → ℕ → List CredentialLeaf
  pub clash : State → ℕ → List CredentialLeaf → Bool
  pub add : ℕ → List CredentialLeaf → State → State
  pub drop : ℕ → State → State
  pub leaves-add :
      (k : ℕ) (ls : List CredentialLeaf) (s : State) (j : ℕ)
      → leaves (add k ls s) j ≡ (if k == j then leaves s k ++ ls else leaves s j)
  pub leaves-drop :
      (k : ℕ) (s : State) (j : ℕ) → leaves (drop k s) j ≡ (if k == j then [] else leaves s j)

module _ (L : LeafTable) where
  abbrev pub create_leaves : ℕ → List CredentialLeaf → M (LeafTable.State L) (Unit {0})
  create_leaves k ls s =
      if LeafTable.down L s
      then err other_error s
      else if LeafTable.clash L s k ls
      then err unique_violation s
      else ok tt (LeafTable.add L k ls s)

  abbrev pub delete_leaves : ℕ → M (LeafTable.State L) (Unit {0})
  delete_leaves k s = if LeafTable.down L s then err other_error s else ok tt (LeafTable.drop L k s)

-- The hash of every attribute in the order of the names, with the salt drawn for its position.
module _ (poseidon : ℕ → ℕ → ℕ) (salts : ℕ → ℕ) (attributes : List (ℕ × Value)) where
  abbrev pub leaf_of : ℕ → ℕ → ℕ → CredentialLeaf
  leaf_of i name v = record {
    attribute_name = name;
    leaf_index = i;
    leaf_hash = poseidon v (salts i);
    salt = salts i;
  }

  unfoldable pub leaf_data : ℕ → List ℕ → Option (List CredentialLeaf)
  unfolding value_of
  leaf_data i [] = some []
  leaf_data i (name ∷ names) =
      let rest = leaf_data (suc i) names in
      elim (value_of name attributes) [
        | none ↦ none
        | some v ↦ elim rest [ none ↦ none | some ls ↦ some (leaf_of i name v ∷ ls) ]
      ]

abbrev pub hashes_of : List CredentialLeaf → List ℕ
hashes_of leaves = map (λ l. l.leaf_hash) leaves
