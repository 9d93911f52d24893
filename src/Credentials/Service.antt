-- ===== src/Credentials/Service.antt =====
-- The operations of backend/src/services/credential/credential.service.ts over its tables.
use zk_auth.Prelude.{ℕ, Option, none, some, List, ◌==◌, ltb, length, if◌then◌else◌}
use zk_auth.Errors.{app_error, credential_not_found, not_found_404, validation, other_error}
use zk_auth.Effects.{M, ok, err, ◌>>=◌, ◌>>◌, return, throw}
use zk_auth.Stores.{Table, Journal, find_unique, find_first, create, update}
use zk_auth.Merkle.{MerkleTree, build_tree}
use zk_auth.Credentials.{
  CredentialTypeRow, CredentialRow, CredentialLeaf, Value, IssuanceResult, DisclosureProofRow,
  valid_attributes, sort_names, is_active_for, revoke_for, new_credential, LeafTable, hashes_of,
  create_leaves, delete_leaves, leaf_data, revoked, reissued, stated,
}

module _ (T : Table CredentialTypeRow) (C : Table CredentialRow) (L : LeafTable)
    (A : Journal DisclosureProofRow) where
  pub record CredentialDb : Type 0 where
    pub types : Table.State T
    pub credentials : Table.State C
    pub leaves : LeafTable.State L
    pub audit : Journal.State A

  module _ {X : Type 0} where
    abbrev pub in_types : M (Table.State T) X → M CredentialDb X
    in_types m w = elim (m w.types) [
      | ok a s ↦ ok a (record w { types = s })
      | err e s ↦ err e (record w { types = s })
    ]

    abbrev pub in_credentials : M (Table.State C) X → M CredentialDb X
    in_credentials m w = elim (m w.credentials) [
      | ok a s ↦ ok a (record w { credentials = s })
      | err e s ↦ err e (record w { credentials = s })
    ]

    abbrev pub in_leaves : M (LeafTable.State L) X → M CredentialDb X
    in_leaves m w = elim (m w.leaves) [
      | ok a s ↦ ok a (record w { leaves = s })
      | err e s ↦ err e (record w { leaves = s })
    ]

    -- `prisma.$transaction`
    abbrev pub transaction : M CredentialDb X → M CredentialDb X
    transaction m w = elim (m w) [ ok a w' ↦ ok a w' | err e w' ↦ err e w ]

  unfoldable pub retire : ℕ → Option (ℕ × CredentialRow) → M CredentialDb (Unit {0})
  retire now none = return tt
  retire now (some (old, row)) = do
    in_leaves (delete_leaves L old)
    in_credentials (update C old (revoke_for reissued now))

  -- The body of the transaction.
  unfoldable pub write_credential :
      ℕ → ℕ → CredentialRow → List CredentialLeaf → M CredentialDb (Unit {0})
  unfolding retire
  write_credential now id row leaves = do
    existing ← in_credentials (find_first C (is_active_for row.user_id row.credential_type_id))
    retire now existing
    in_credentials (create C id row)
    in_leaves (create_leaves L id leaves)

  module _ (poseidon : ℕ → ℕ → ℕ) where
    unfoldable pub store_tree :
        ℕ
        → ℕ
        → ℕ
        → ℕ
        → Option ℕ
        → List CredentialLeaf
        → Option MerkleTree
        → M CredentialDb IssuanceResult
    unfolding write_credential
    store_tree now id user type expires_at leaves none = throw other_error
    store_tree now id user type expires_at leaves (some tree) = do
      transaction
          (write_credential now id (new_credential now user type tree leaves expires_at) leaves)
      return
          (record { credential_id = id; merkle_root = tree.root; leaves = leaves; issued_at = now })

    unfoldable pub store_leaves :
        ℕ → ℕ → ℕ → ℕ → Option ℕ → Option (List CredentialLeaf) → M CredentialDb IssuanceResult
    unfolding store_tree
    store_leaves now id user type expires_at none = throw other_error
    store_leaves now id user type expires_at (some leaves) =
        store_tree now id user type expires_at leaves (build_tree poseidon (hashes_of leaves))

    -- The tests of the type and the attributes. A schema of more than 256 keys exceeds the tree.
    unfoldable pub issue_for :
        ℕ
        → ℕ
        → (ℕ → ℕ)
        → ℕ
        → ℕ
        → List (ℕ × Value)
        → Option ℕ
        → Option CredentialTypeRow
        → M CredentialDb IssuanceResult
    unfolding store_leaves
    issue_for now id salts user type attributes expires_at none = throw not_found_404
    issue_for now id salts user type attributes expires_at (some t) =
        if t.is_active
        then (if valid_attributes t.attribute_names attributes
            then (if ltb 256 (length (sort_names t.attribute_names))
                then throw validation
                else store_leaves now id user type expires_at
                    (leaf_data poseidon salts attributes 0 (sort_names t.attribute_names)))
            else throw validation)
        else throw (app_error credential_not_found 400)

    unfoldable pub issue_credential :
        ℕ → ℕ → (ℕ → ℕ) → ℕ → ℕ → List (ℕ × Value) → Option ℕ → M CredentialDb IssuanceResult
    unfolding issue_for
    issue_credential now id salts user type attributes expires_at = do
      found ← in_types (find_unique T type)
      issue_for now id salts user type attributes expires_at found

  -- A credential of the user, with its leaves.
  shown_to : ℕ → ℕ → Option CredentialRow → M CredentialDb (CredentialRow × List CredentialLeaf)
  shown_to id user none = throw not_found_404
  shown_to id user (some row) =
      if row.user_id == user
      then (λ w. ok (row, LeafTable.leaves L w.leaves id) w)
      else throw not_found_404

  pub get_credential : ℕ → ℕ → M CredentialDb (CredentialRow × List CredentialLeaf)
  unfolding shown_to
  get_credential id user = do found ← in_credentials (find_unique C id); shown_to id user found

  unfoldable pub revoke_owned : ℕ → ℕ → ℕ → ℕ → Option CredentialRow → M CredentialDb (Unit {0})
  revoke_owned now id user reason none = throw not_found_404
  revoke_owned now id user reason (some row) =
      if row.user_id == user
      then elim row.status [
        | revoked ↦ return tt
        | _ ↦ in_credentials (update C id (revoke_for (stated reason) now))
      ]
      else throw not_found_404

  unfoldable pub revoke_credential : ℕ → ℕ → ℕ → ℕ → M CredentialDb (Unit {0})
  unfolding revoke_owned
  revoke_credential now id user reason = do
    found ← in_credentials (find_unique C id)
    revoke_owned now id user reason found
