-- ===== src/Merkle/Binding.antt =====
-- What a proof that verifies is worth: backend/src/services/credential/merkle.service.ts,
-- `verifyProof`.
use zk_auth.Prelude.{
  ℕ, zero, suc, ◌≡◌, ◌≢◌, ◌⊎◌, inl, inr, arith, true, some, List, [], ◌∷◌, ◌==◌, Bool-cases,
  Option-cases, subst,
}
use zk_auth.Merkle.{
  MerkleTree, MerkleProof, tree_depth, build_tree, generate_proof, parent, rest, climb,
  verify_proof,
}
use zk_auth.Merkle.Laws.{verify-generate}

module _ (poseidon : ℕ → ℕ → ℕ) where
  -- Two different pairs with one hash.
  abbrev pub Collision : Type 0
  Collision =
      (a : ℕ) × (b : ℕ) × (c : ℕ) × (d : ℕ) × (poseidon a b ≡ poseidon c d) × ((a ≢ c) ⊎ (b ≢ d))

  hash_binds : (a b c d : ℕ) → poseidon a b ≡ poseidon c d → ((a ≡ c) × (b ≡ d)) ⊎ Collision
  hash_binds a b c d e = elim (Bool-cases (a == c)) [
    | inr ne ↦ inr (a, b, c, d, e, inl (ground arith))
    | inl ac ↦ elim (Bool-cases (b == d)) [
      | inr ne ↦ inr (a, b, c, d, e, inr (ground arith))
      | inl bd ↦ inl (ground arith, ground arith)
    ]
  ]

  parent_binds :
      (bs : List ℕ) (e x e' y : ℕ)
      → parent poseidon bs e x ≡ parent poseidon bs e' y
      → (x ≡ y) ⊎ Collision
  parent_binds [] e x e' y h = elim (hash_binds x e y e' h) [ inl (p, _) ↦ inl p | inr c ↦ inr c ]
  parent_binds (b ∷ bs) e x e' y h = elim (Bool-cases (b == 1)) [
    | inl q ↦ elim (hash_binds e x e' y (ground (arith, h, q))) [
      | inl (_, p) ↦ inl p
      | inr c ↦ inr c
    ]
    | inr q ↦ elim (hash_binds x e y e' (ground (arith, h, q))) [
      | inl (p, _) ↦ inl p
      | inr c ↦ inr c
    ]
  ]

  climb_binds :
      (l : ℕ) (es es' bs : List ℕ) (x y r : ℕ)
      → climb poseidon l es bs x ≡ some r
      → climb poseidon l es' bs y ≡ some r
      → (x ≡ y) ⊎ Collision
  unfolding climb
  climb_binds zero es es' bs x y r h h' = inl (ground (arith, h, h'))
  climb_binds (suc l) [] es' bs x y r h h' = absurd (ground (arith, h))
  climb_binds (suc l) (e ∷ es) [] bs x y r h h' = absurd (ground (arith, h'))
  climb_binds (suc l) (e ∷ es) (e' ∷ es') bs x y r h h' =
      elim (climb_binds l es es' (rest bs) (parent poseidon bs e x) (parent poseidon bs e' y) r h
        h') [ inr c ↦ inr c | inl p ↦ parent_binds bs e x e' y p ]

  climb_of :
      (proof : MerkleProof) (root : ℕ)
      → verify_proof poseidon proof root ≡ some true
      → climb poseidon tree_depth proof.path_elements proof.path_indices proof.leaf_hash ≡ some root
  climb_of proof root h =
      elim (Option-cases
        (climb poseidon tree_depth proof.path_elements proof.path_indices proof.leaf_hash)) [
          | inl e ↦ absurd (ground (arith, h, e))
          | inr (x, e) ↦ ground (arith, h, e)
        ]

  -- Forging is as hard as finding a collision of Poseidon: a proof, made by anyone, that verifies
  -- against the root of a built tree and has the routing bits of position i is about the very leaf
  -- hash that the tree has at i, or two different pairs with the same hash are found.
  pub verify_binds :
      (hashes : List ℕ) (tree : MerkleTree) (i : ℕ) (honest forged : MerkleProof)
      → build_tree poseidon hashes ≡ some tree
      → generate_proof tree i ≡ some honest
      → forged.path_indices ≡ honest.path_indices
      → verify_proof poseidon forged tree.root ≡ some true
      → (forged.leaf_hash ≡ honest.leaf_hash) ⊎ Collision
  verify_binds hashes tree i honest forged built made same ok =
      climb_binds tree_depth forged.path_elements honest.path_elements honest.path_indices
        forged.leaf_hash honest.leaf_hash tree.root
        (subst
          (λ (bs : List ℕ).
            climb poseidon tree_depth forged.path_elements bs forged.leaf_hash ≡ some tree.root)
          same (climb_of forged tree.root ok))
        (climb_of honest tree.root (verify-generate poseidon hashes tree i honest built made).0)
