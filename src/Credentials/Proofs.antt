-- ===== src/Credentials/Proofs.antt =====
-- The Merkle proofs that the holder of a new credential can make
-- (backend/src/services/credential/credential.service.ts, merkle.service.ts).
use zk_auth.Prelude.{
  ℕ, zero, suc, ◌+◌, ◌≡◌, refl, ◌<◌, ◌≤◌, arith, true, Option, some, inl, inr, Option-cases, List,
  [], ◌∷◌, length, get_or, ltb, if◌then◌else◌,
}
use zk_auth.Effects.{ok}
use zk_auth.Stores.{Table, Journal}
use zk_auth.Merkle.{MerkleTree, MerkleProof, max_leaves, build_tree, generate_proof, verify_proof}
use zk_auth.Merkle.Laws.{verify-generate}
use zk_auth.Credentials.{
  CredentialTypeRow, CredentialRow, CredentialLeaf, DisclosureProofRow, LeafTable, Value,
  IssuanceResult, insert_name, sort_names, leaf_of, leaf_data, value_of, hashes_of, new_credential,
}
use zk_auth.Credentials.Service.{issue_credential}
use zk_auth.Credentials.Issuance.{Db, credential, IssuedCredential, issue-IssueOutcome}

length-insert_name : (x : ℕ) (ys : List ℕ) → length (insert_name x ys) ≡ suc (length ys)
unfolding insert_name
length-insert_name x [] = refl
length-insert_name x (y ∷ ys) = ground (arith, length-insert_name x ys)

length-sort_names : (xs : List ℕ) → length (sort_names xs) ≡ length xs
unfolding sort_names
length-sort_names [] = refl
length-sort_names (x ∷ xs) =
    omega (arith, length-insert_name x (sort_names xs), length-sort_names xs)

module _ (poseidon : ℕ → ℕ → ℕ) (salts : ℕ → ℕ) (attributes : List (ℕ × Value)) where
  -- The first leaf is that of the first name, and the others are those of the other names.
  data_inverse :
      (k name : ℕ) (names : List ℕ) (leaves : List CredentialLeaf)
      → leaf_data poseidon salts attributes k (name ∷ names) ≡ some leaves
      → (v : ℕ) × (ls : List CredentialLeaf) × (value_of name attributes ≡ some v)
        × (leaf_data poseidon salts attributes (suc k) names ≡ some ls)
        × (leaf_of poseidon salts attributes k name v ∷ ls ≡ leaves)
  unfolding leaf_data
  data_inverse k name names leaves e = elim (Option-cases (value_of name attributes)) [
    | inl missing ↦ absurd (ground (arith, e, missing))
    | inr (v, found) ↦ elim (Option-cases (leaf_data poseidon salts attributes (suc k) names)) [
      | inl stops ↦ absurd (ground (arith, e, found, stops))
      | inr (ls, goes) ↦ (v, ls, found, goes, ground (arith, e, found, goes))
    ]
  ]

  -- The leaf of the name at a position is the hash of the value of that attribute and its salt.
  leaf_at :
      (names : List ℕ) (k i : ℕ) (leaves : List CredentialLeaf)
      → leaf_data poseidon salts attributes k names ≡ some leaves
      → i < length names
      → (v : ℕ) × (value_of (get_or names i 0) attributes ≡ some v)
        × (i < length (hashes_of leaves))
        × (get_or (hashes_of leaves) i 0 ≡ poseidon v (salts (k + i)))
  leaf_at [] k i leaves e h = absurd (omega arith)
  leaf_at (name ∷ names) k zero leaves e h =
      let (v, ls, found, goes, made) = data_inverse k name names leaves e in
      (v, found, ground (arith, made), ground (arith, made))
  leaf_at (name ∷ names) k (suc i) leaves e h =
      let (v, ls, found, goes, made) = data_inverse k name names leaves e in
      let (v', found', below, hashed) = leaf_at names (suc k) i ls goes (omega arith) in
      (v', found', ground (arith, made, below), ground (arith, made, hashed))

module _ (T : Table CredentialTypeRow) (C : Table CredentialRow) (L : LeafTable)
    (A : Journal DisclosureProofRow) (poseidon : ℕ → ℕ → ℕ) where
  -- A proof of the attribute at the position `i` of the sorted schema, of a credential `id`.
  pub record Provable (id i name : ℕ) (salts : ℕ → ℕ) (attributes : List (ℕ × Value))
      (leaves : List CredentialLeaf) (w : Db T C L A poseidon) : Type 0 where
    pub row : CredentialRow
    pub stored : credential T C L A poseidon w id ≡ some row
    pub value : ℕ
    pub has_value : value_of name attributes ≡ some value
    pub tree : MerkleTree
    pub built : build_tree poseidon (hashes_of leaves) ≡ some tree
    pub proof : MerkleProof
    pub generated : generate_proof tree i ≡ some proof
    pub verifies : verify_proof poseidon proof row.merkle_root ≡ some true
    pub about : proof.leaf_hash ≡ poseidon value (salts i)

  same_row :
      (o : Option CredentialTypeRow) (a b : CredentialTypeRow) → o ≡ some a → o ≡ some b → a ≡ b
  same_row o a b p q = cc

  about_hash :
      (i n proved hash zero_hash value : ℕ) (salts : ℕ → ℕ)
      → proved ≡ (if ltb i n then hash else zero_hash)
      → i < n
      → hash ≡ poseidon value (salts (0 + i))
      → proved ≡ poseidon value (salts i)
  about_hash i n proved hash zero_hash value salts e h same = ground arith

  generated_lem :
      (tree : MerkleTree) (i : ℕ)
      → i < max_leaves
      → (proof : MerkleProof) × (generate_proof tree i ≡ some proof)
  generated_lem tree i h = elim (Option-cases (generate_proof tree i)) [
    | inl missing ↦ absurd (ground (arith, missing, h))
    | inr (proof, made) ↦ (proof, made)
  ]

  -- The holder of a new credential can prove every attribute: for each position of the schema's sorted
  -- names the attributes have a value for that name, the leaf hashes that were handed out make a
  -- Merkle tree, the tree gives a proof for the position, the proof verifies against the root stored in
  -- the credential's row, and it is about the hash of that value with the salt of the position.
  pub generate_proof-issue :
      (now id : ℕ) (salts : ℕ → ℕ) (user type : ℕ) (attributes : List (ℕ × Value))
      (expires_at : Option ℕ) (w w' : Db T C L A poseidon) (r : IssuanceResult)
      (schema : CredentialTypeRow) (i : ℕ)
      → issue_credential T C L A poseidon now id salts user type attributes expires_at w ≡ ok r w'
      → Table.row T w.types type ≡ some schema
      → i < length schema.attribute_names
      → Provable r.credential_id i
          (get_or (sort_names schema.attribute_names) i 0)
          salts
          attributes
          r.leaves
          w'
  generate_proof-issue now id salts user type attributes expires_at w w' r schema i e known h =
      let issued : IssuedCredential T C L A poseidon now id salts user type attributes expires_at w
          w' r =
        rw e at
          (issue-IssueOutcome T C L A poseidon now id salts user type attributes expires_at w) in
      let names = sort_names schema.attribute_names in
      let computed : leaf_data poseidon salts attributes 0 names ≡ some r.leaves =
        rw (same_row _ issued.type_row schema issued.found known) at issued.computed in
      let (v, found, below, hashed) =
        leaf_at poseidon salts attributes names 0 i r.leaves computed
          (omega (arith, h, length-sort_names schema.attribute_names)) in
      let fits : length (hashes_of r.leaves) ≤ max_leaves = ground (arith, issued.built) in
      let (proof, made) = generated_lem issued.tree i (omega (arith, below, fits)) in
      let (verifies, about) =
        verify-generate poseidon (hashes_of r.leaves) issued.tree i proof issued.built made in
      record {
        row = new_credential now user type issued.tree r.leaves expires_at;
        stored = ground (arith, issued.stored, issued.named);
        value = v;
        has_value = found;
        tree = issued.tree;
        built = issued.built;
        proof = proof;
        generated = made;
        verifies = verifies;
        about = about_hash i _ proof.leaf_hash _ _ v salts about below hashed;
      }
