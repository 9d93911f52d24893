-- ===== src/Merkle/Examples.antt =====
-- A tree of three leaves under a stand-in for Poseidon.
use zk_auth.Prelude.{
  ℕ, ◌+◌, ◌*◌, ◌≡◌, ◌⊎◌, refl, true, some, List, [], ◌∷◌, length, get_or, ltb, if◌then◌else◌,
}
use zk_auth.Merkle.{
  MerkleTree, MerkleProof, verify_proof, nodes_of, padded, zero_leaf, climb, build_internal, copy,
  fill, elements_from, indices_from,
}
use zk_auth.Merkle.Laws.{verify-generate}
use zk_auth.Merkle.Binding.{Collision, verify_binds}

abbrev hash : ℕ → ℕ → ℕ
hash a b = 2 * a + 3 * b + 1

abbrev hashes : List ℕ
hashes = 11 ∷ 22 ∷ 33 ∷ []

abbrev tree : MerkleTree
tree = record {
  root = get_or (nodes_of hash (padded hash hashes)) 1 0;
  nodes = nodes_of hash (padded hash hashes);
  leaves = padded hash hashes;
}

abbrev proof : MerkleProof
proof = record {
  path_elements = elements_from 8 tree.nodes 258;
  path_indices = indices_from 8 258;
  leaf_hash = 33;
  leaf_index = 2;
}

-- Another sibling at the lowest level, and a leaf hash that makes up for it under this weak hash.
abbrev forged : MerkleProof
forged = record {
  path_elements = 3 ∷ elements_from 7 tree.nodes 129;
  path_indices = indices_from 8 258;
  leaf_hash = 30;
  leaf_index = 2;
}

forged_test : verify_proof hash forged tree.root ≡ some true
unfolding climb elements_from indices_from build_internal copy fill
forged_test = refl

verify-generate_example :
    (verify_proof hash proof tree.root ≡ some true)
    × (proof.leaf_hash ≡ (if ltb 2 (length hashes) then get_or hashes 2 0 else zero_leaf hash))
unfolding copy fill
verify-generate_example = verify-generate hash hashes tree 2 proof refl refl

verify_binds_example : (forged.leaf_hash ≡ proof.leaf_hash) ⊎ Collision hash
unfolding copy fill elements_from indices_from
verify_binds_example = verify_binds hash hashes tree 2 proof forged refl refl refl forged_test
