-- ===== src/Credentials/Issuance.antt =====
-- What the issue of a credential does (backend/src/services/credential/credential.service.ts).
use zk_auth.Prelude.{
  ℕ, ◌≡◌, refl, arith, Bool, true, false, Option, none, some, inl, inr, Bool-cases, List, length,
  ltb,
}
use zk_auth.Errors.{Error, other_error}
use zk_auth.Effects.{M, Outcome, Outcome-cases, >>=-split, >>=-ask, ok, err, >>=-ok}
use zk_auth.Stores.{Table, Journal, find_first, find_unique, create}
use zk_auth.Merkle.{MerkleTree, build_tree}
use zk_auth.Credentials.{
  CredentialTypeRow, CredentialRow, CredentialLeaf, DisclosureProofRow, LeafTable, Value,
  IssuanceResult, valid_attributes, sort_names, leaf_data, hashes_of, new_credential, is_active_for,
}
use zk_auth.Credentials.Service.{
  CredentialDb, transaction, write_credential, retire, store_tree, store_leaves, issue_for,
  in_credentials, in_types, issue_credential,
}

module _ (T : Table CredentialTypeRow) (C : Table CredentialRow) (L : LeafTable)
    (A : Journal DisclosureProofRow) (poseidon : ℕ → ℕ → ℕ) where
  abbrev pub Db : Type 0
  Db = CredentialDb T C L A

  abbrev pub credential : Db → ℕ → Option CredentialRow
  credential w id = Table.row C w.credentials id

  -- What an issue that returned has found and stored.
  pub record IssuedCredential (now id : ℕ) (salts : ℕ → ℕ) (user type : ℕ)
      (attributes : List (ℕ × Value)) (expires_at : Option ℕ) (w w' : Db) (r : IssuanceResult)
      : Type 0 where
    pub type_row : CredentialTypeRow
    pub tree : MerkleTree
    pub found : Table.row T w.types type ≡ some type_row
    pub type_active : type_row.is_active ≡ true
    pub valid : valid_attributes type_row.attribute_names attributes ≡ true
    pub computed :
        leaf_data poseidon salts attributes 0 (sort_names type_row.attribute_names) ≡ some r.leaves
    pub built : build_tree poseidon (hashes_of r.leaves) ≡ some tree
    pub named : r.credential_id ≡ id
    pub root : r.merkle_root ≡ tree.root
    pub stored : credential w' id ≡ some (new_credential now user type tree r.leaves expires_at)
    pub written :
        write_credential T C L A now id
          (new_credential now user type tree r.leaves expires_at)
          r.leaves
          w
        ≡ ok tt w'

  abbrev pub IssueOutcome :
      ℕ
      → ℕ
      → (ℕ → ℕ)
      → ℕ
      → ℕ
      → List (ℕ × Value)
      → Option ℕ
      → Db
      → Outcome Db IssuanceResult
      → Type 0
  IssueOutcome now id salts user type attributes expires_at w (ok r w') =
      IssuedCredential now id salts user type attributes expires_at w w' r
  IssueOutcome now id salts user type attributes expires_at w (err e w') = w' ≡ w

  committed : (m : M Db (Unit {0})) (w v : Db) → transaction T C L A m w ≡ ok tt v → m w ≡ ok tt v
  committed m w v h = elim (Outcome-cases (m w)) [
    | inl (u, v', e) ↦ ground (arith, e, h)
    | inr (x, v', e) ↦ absurd (ground (arith, e, h))
  ]

  rolled_back :
      (m : M Db (Unit {0})) (w v : Db) (x : Error) → transaction T C L A m w ≡ err x v → v ≡ w
  rolled_back m w v x h = elim (Outcome-cases (m w)) [
    | inl (u, v', e) ↦ absurd (ground (arith, e, h))
    | inr (y, v', e) ↦ ground (arith, e, h)
  ]

  write_lem :
      (now id : ℕ) (row : CredentialRow) (leaves : List CredentialLeaf) (w w' : Db)
      → write_credential T C L A now id row leaves w ≡ ok tt w'
      → credential w' id ≡ some row
  unfolding write_credential
  write_lem now id row leaves w w' e =
      let found : M Db (Option (ℕ × CredentialRow)) =
        in_credentials T C L A (find_first C (is_active_for row.user_id row.credential_type_id)) in
      let (existing, w1, _, e1) = >>=-ok found _ w w' tt e in
      let (_, w2, _, e2) = >>=-ok (retire T C L A now existing) _ w1 w' tt e1 in
      let (_, w3, created, e3) = >>=-ok (in_credentials T C L A (create C id row)) _ w2 w' tt e2 in
      ground (arith, created, e3, Table.row-write C id row w2.credentials id)

  module _ (now id : ℕ) (salts : ℕ → ℕ) (user type : ℕ) (attributes : List (ℕ × Value))
      (expires_at : Option ℕ) (w : Db) where
    abbrev Issues : Outcome Db IssuanceResult → Type 0
    Issues r = IssueOutcome now id salts user type attributes expires_at w r

    module _ (t : CredentialTypeRow) (found : Table.row T w.types type ≡ some t)
        (on : t.is_active ≡ true)
        (valid : valid_attributes t.attribute_names attributes ≡ true) where
      tree_lem :
          (leaves : List CredentialLeaf) (o : Option MerkleTree)
          → leaf_data poseidon salts attributes 0 (sort_names t.attribute_names) ≡ some leaves
          → build_tree poseidon (hashes_of leaves) ≡ o
          → Issues (store_tree T C L A poseidon now id user type expires_at leaves o w)
      unfolding store_tree
      tree_lem leaves none e b = refl
      tree_lem leaves (some tree) e b =
          let row : CredentialRow = new_credential now user type tree leaves expires_at in
          let m : M Db (Unit {0}) = write_credential T C L A now id row leaves in
          >>=-split Issues (transaction T C L A m) _ w
            (λ u v h. record {
              type_row = t;
              tree = tree;
              found = found;
              type_active = on;
              valid = valid;
              computed = e;
              built = b;
              named = refl;
              root = refl;
              stored = write_lem now id row leaves w v (committed m w v h);
              written = committed m w v h;
            })
            (λ x v h. rolled_back m w v x h)

      leaves_lem :
          (o : Option (List CredentialLeaf))
          → leaf_data poseidon salts attributes 0 (sort_names t.attribute_names) ≡ o
          → Issues (store_leaves T C L A poseidon now id user type expires_at o w)
      unfolding store_leaves
      leaves_lem none e = refl
      leaves_lem (some leaves) e = tree_lem leaves _ e refl

    checked_lem :
        (t : CredentialTypeRow) (on valid : Bool)
        → Table.row T w.types type ≡ some t
        → t.is_active ≡ on
        → valid_attributes t.attribute_names attributes ≡ valid
        → Issues
            (issue_for T C L A poseidon now id salts user type attributes expires_at (some t) w)
    unfolding issue_for
    checked_lem t false valid found e h = rw e refl
    checked_lem t true false found e h = rw (e, h) refl
    checked_lem t true true found e h =
        elim (Bool-cases (ltb 256 (length (sort_names t.attribute_names)))) [
          | inl long ↦ rw (e, h, long) refl
          | inr fits ↦ rw (e, h, fits) (leaves_lem t found e h _ refl)
        ]

    type_lem :
        (o : Option CredentialTypeRow)
        → Table.row T w.types type ≡ o
        → Issues (issue_for T C L A poseidon now id salts user type attributes expires_at o w)
    unfolding issue_for
    type_lem none found = refl
    type_lem (some t) found = checked_lem t _ _ found refl refl

    -- A credential is issued only of an active type, for attributes that are exactly those of its
    -- schema and in the 32-bit range; its row has then, under the drawn id, the root of the Merkle
    -- tree over the hashes of the attributes in the order of their names. An issue that fails leaves
    -- the database as it was.
    pub issue-IssueOutcome :
        Issues (issue_credential T C L A poseidon now id salts user type attributes expires_at w)
    unfolding issue_credential
    issue-IssueOutcome =
        >>=-ask Issues (in_types T C L A (find_unique T type)) _ w (Table.down T w.types)
          (Table.row T w.types type) other_error (ground arith) refl (type_lem _ refl)
