-- ===== src/Merkle/Laws.antt =====
-- The proofs of inclusion of backend/src/services/credential/merkle.service.ts: a generated proof
-- verifies against the root of its tree.
use zk_auth.Prelude.{
  ℕ, zero, suc, ◌+◌, ◌-◌, ◌*◌, ◌/◌, ◌%◌, ◌≤◌, ◌<◌, ◌↔◌, ◌≡◌, refl, ◌∙◌, sym, ap, inl, inr, arith,
  true, some, List, ◌∷◌, length, get_or, ltb, ◌==◌, ==_refl, is_some, if◌then◌else◌, Bool-cases,
}
use zk_auth.Merkle.{
  MerkleTree, MerkleProof, tree_depth, max_leaves, fill, padded, zero_leaf, nodes_of, build_tree,
  generate_proof, elements_from, indices_from, sibling, routing_bit, parent, climb, verify_proof,
}
use zk_auth.Merkle.Array.{
  length-fill, get_or-fill, length-copy, get_or-copy, get_or-copy_out, get_or-build,
  get_or-build_above,
}

-- The node that lies a number of levels above a node.
ancestor : ℕ → ℕ → ℕ
ancestor zero n = n
ancestor (suc l) n = ancestor l (n / 2)

ancestor-leaf : (i : ℕ) → i < 256 → ancestor 8 (256 + i) ≡ 1
unfolding ancestor
ancestor-leaf i h = omega arith

ancestor_positive : (l n : ℕ) → 1 ≤ ancestor l n → 1 ≤ n
unfolding ancestor
ancestor_positive zero n h = h
ancestor_positive (suc l) n h = omega (arith, ancestor_positive l (n / 2) h)

module _ (poseidon : ℕ → ℕ → ℕ) where
  -- Every internal node is the hash of its children.
  abbrev pub IsHeap : List ℕ → Type 0
  IsHeap nodes =
      (j : ℕ)
      → 1 ≤ j
      → j < max_leaves
      → get_or nodes j 0 ≡ poseidon (get_or nodes (2 * j) 0) (get_or nodes (2 * j + 1) 0)

  children_lem :
      (nodes : List ℕ) (a b j : ℕ)
      → IsHeap nodes
      → 1 ≤ j
      → j < max_leaves
      → a ≡ 2 * j
      → b ≡ 2 * j + 1
      → poseidon (get_or nodes a 0) (get_or nodes b 0) ≡ get_or nodes j 0
  children_lem nodes a b j heap lo hi ea eb = rw (ea, eb) (sym (heap j lo hi))

  parent_lem :
      (nodes : List ℕ) (n : ℕ) (bs : List ℕ)
      → IsHeap nodes
      → 2 ≤ n
      → n < 2 * max_leaves
      → parent poseidon (routing_bit n ∷ bs) (sibling nodes n) (get_or nodes n 0)
        ≡ get_or nodes (n / 2) 0
  parent_lem nodes n bs heap lo hi = elim (Bool-cases (n % 2 == 1)) [
    | inl e ↦ rw e (
        children_lem nodes (n - 1) n (n / 2) heap (omega arith) (omega arith) (ground arith)
          (ground arith))
    | inr e ↦ rw e (
        children_lem nodes n (n + 1) (n / 2) heap (omega arith) (omega arith) (ground arith)
          (ground arith))
  ]

  climb-path :
      (l : ℕ) (nodes : List ℕ) (n : ℕ)
      → IsHeap nodes
      → 1 ≤ ancestor l n
      → n < 2 * max_leaves
      → climb poseidon l (elements_from l nodes n) (indices_from l n) (get_or nodes n 0)
        ≡ some (get_or nodes (ancestor l n) 0)
  unfolding climb elements_from indices_from ancestor
  climb-path zero nodes n heap lo hi = refl
  climb-path (suc l) nodes n heap lo hi =
      ap (climb poseidon l (elements_from l nodes (n / 2)) (indices_from l (n / 2))) (
        parent_lem nodes n (indices_from l (n / 2)) heap
          (omega (arith, ancestor_positive l (n / 2) lo)) (omega arith))
      ∙ climb-path l nodes (n / 2) heap lo (omega arith)

  nodes_of-IsHeap : (leaves : List ℕ) → IsHeap (nodes_of poseidon leaves)
  nodes_of-IsHeap leaves j lo hi =
      get_or-build poseidon 255 _ j lo (omega arith)
        (omega (arith, length-copy leaves 256 (fill 512 0), length-fill 512 0))

  get_or-nodes_of :
      (leaves : List ℕ) (i : ℕ)
      → i < length leaves
      → length leaves ≤ max_leaves
      → get_or (nodes_of poseidon leaves) (max_leaves + i) 0 ≡ get_or leaves i 0
  get_or-nodes_of leaves i h le =
      get_or-build_above poseidon 255 _ (256 + i) (omega arith)
      ∙ get_or-copy leaves 256 (fill 512 0) i 0 h (omega (arith, length-fill 512 0))

  length-padded : (hashes : List ℕ) → length (padded poseidon hashes) ≡ max_leaves
  length-padded hashes =
      length-copy hashes 0 (fill 256 (zero_leaf poseidon)) ∙ length-fill 256 (zero_leaf poseidon)

  get_or-padded :
      (hashes : List ℕ) (i : ℕ)
      → length hashes ≤ max_leaves
      → i < max_leaves
      → get_or (padded poseidon hashes) i 0
        ≡ (if ltb i (length hashes) then get_or hashes i 0 else zero_leaf poseidon)
  get_or-padded hashes i le h = elim (Bool-cases (ltb i (length hashes))) [
    | inl e ↦ rw e (
        ap (λ (k : ℕ). get_or (padded poseidon hashes) k 0) (omega arith)
        ∙ get_or-copy hashes 0 (fill 256 (zero_leaf poseidon)) i 0 (ground arith)
            (omega (arith, length-fill 256 (zero_leaf poseidon))))
    | inr e ↦ rw e (
        get_or-copy_out hashes 0 (fill 256 (zero_leaf poseidon)) i 0 (inr (ground arith))
        ∙ get_or-fill 256 (zero_leaf poseidon) i 0 h)
  ]

  -- `build_tree` succeeds on at most 256 leaf hashes and on no more, and `generate_proof` on the
  -- positions below 256 and on no others.
  pub build_lem :
      (hashes : List ℕ) (tree : MerkleTree) (i : ℕ)
      → ((is_some (build_tree poseidon hashes) ≡ true) ↔ (length hashes ≤ max_leaves))
        × ((is_some (generate_proof tree i) ≡ true) ↔ (i < max_leaves))
  build_lem hashes tree i = (ground arith, ground arith)

  -- The tree of some leaf hashes, and the proof of a position in a tree.
  tree_of : List ℕ → MerkleTree
  tree_of hashes = record {
    root = get_or (nodes_of poseidon (padded poseidon hashes)) 1 0;
    nodes = nodes_of poseidon (padded poseidon hashes);
    leaves = padded poseidon hashes;
  }

  build_inverse :
      (hashes : List ℕ) (tree : MerkleTree)
      → build_tree poseidon hashes ≡ some tree
      → (length hashes ≤ max_leaves) × (tree_of hashes ≡ tree)
  unfolding tree_of
  build_inverse hashes tree built = elim (Bool-cases (ltb max_leaves (length hashes))) [
    | inl e ↦ ground arith
    | inr e ↦ (ground arith, ground arith)
  ]

  proof_of : MerkleTree → ℕ → MerkleProof
  proof_of tree i = record {
    path_elements = elements_from tree_depth tree.nodes (max_leaves + i);
    path_indices = indices_from tree_depth (max_leaves + i);
    leaf_hash = get_or tree.leaves i 0;
    leaf_index = i;
  }

  generate_inverse :
      (tree : MerkleTree) (i : ℕ) (proof : MerkleProof)
      → generate_proof tree i ≡ some proof
      → (i < max_leaves) × (proof_of tree i ≡ proof)
  unfolding proof_of
  generate_inverse tree i proof made = elim (Bool-cases (ltb i max_leaves)) [
    | inl e ↦ (ground arith, ground arith)
    | inr e ↦ ground arith
  ]

  climb_to_root :
      (hashes : List ℕ) (i : ℕ)
      → length hashes ≤ max_leaves
      → i < max_leaves
      → climb poseidon tree_depth
          (proof_of (tree_of hashes) i).path_elements
          (proof_of (tree_of hashes) i).path_indices
          (proof_of (tree_of hashes) i).leaf_hash
        ≡ some (tree_of hashes).root
  unfolding tree_of proof_of
  climb_to_root hashes i le h =
      let leaves = padded poseidon hashes in
      let nodes = nodes_of poseidon leaves in
      ap (climb poseidon 8 (elements_from 8 nodes (256 + i)) (indices_from 8 (256 + i))) (
        sym (
          get_or-nodes_of leaves i (omega (arith, length-padded hashes))
            (omega (arith, length-padded hashes))))
      ∙ climb-path 8 nodes (256 + i) (nodes_of-IsHeap leaves) (omega (arith, ancestor-leaf i h))
          (omega arith)
      ∙ ap (λ (k : ℕ). some (get_or nodes k 0)) (ancestor-leaf i h)

  padded_at :
      (hashes : List ℕ) (i : ℕ)
      → length hashes ≤ max_leaves
      → i < max_leaves
      → (proof_of (tree_of hashes) i).leaf_hash
        ≡ (if ltb i (length hashes) then get_or hashes i 0 else zero_leaf poseidon)
  unfolding proof_of tree_of
  padded_at hashes i le h = get_or-padded hashes i le h

  verify_of :
      (proof : MerkleProof) (root : ℕ)
      → climb poseidon tree_depth proof.path_elements proof.path_indices proof.leaf_hash ≡ some root
      → verify_proof poseidon proof root ≡ some true
  unfolding climb
  verify_of proof root h = rw h (ap some (==_refl root))

  verifies :
      (hashes : List ℕ) (i : ℕ)
      → length hashes ≤ max_leaves
      → i < max_leaves
      → (verify_proof poseidon (proof_of (tree_of hashes) i) (tree_of hashes).root ≡ some true)
        × ((proof_of (tree_of hashes) i).leaf_hash
            ≡ (if ltb i (length hashes) then get_or hashes i 0 else zero_leaf poseidon))
  verifies hashes i le h = (
    verify_of (proof_of (tree_of hashes) i) (tree_of hashes).root (climb_to_root hashes i le h),
    padded_at hashes i le h,
  )

  -- A tree built from any leaf hashes gives for every position below 256 a proof that verifies
  -- against its root. The proof is about the leaf hash at that position, or about the zero leaf where
  -- no hash was given.
  pub verify-generate :
      (hashes : List ℕ) (tree : MerkleTree) (i : ℕ) (proof : MerkleProof)
      → build_tree poseidon hashes ≡ some tree
      → generate_proof tree i ≡ some proof
      → (verify_proof poseidon proof tree.root ≡ some true)
        × (proof.leaf_hash
            ≡ (if ltb i (length hashes) then get_or hashes i 0 else zero_leaf poseidon))
  verify-generate hashes tree i proof built made =
      let (le, built') = build_inverse hashes tree built in
      let (h, made') = generate_inverse tree i proof made in
      rw (sym made', sym built') (verifies hashes i le h)
